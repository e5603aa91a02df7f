-- ===== src/Arp/Cache.antt =====
-- The cache of arp.c. A write behind the last entry is `none`.
pub mod Lookup
pub mod Learn
use network_programming.Base.{
  ℕ, Bool, true, false, not, ◌||◌, ◌&&◌, Option, none, some, List, [], ◌∷◌, ◌++◌, length, set,
  get_elem?, find_index, ◌==◌, ltb, if◌then◌else◌, Bytes, str_eq, c_string,
}
use network_programming.Arp.Types.{
  ServerDetails, Entry, HwAddr, Out, reply, close, ArpReqReply, no_fd,
}

-- Where the loop `i < NUM_CACHE_ENTRIES && arp_cache[i].filled == 1` stops in looking for `ip`.
abbrev pub stops_at : Bytes → Entry → Bool
stops_at ip e = not (e.filled == 1) || str_eq e.ip ip

abbrev pub entry_of : ServerDetails → ℕ → Entry
entry_of svd fd = record { ip = svd.ip; mac = svd.mac; index = svd.index; fd = fd; filled = 1 }

unfoldable pub update_cache_entry : List Entry → ServerDetails → ℕ → ℕ → Option (List Entry)
update_cache_entry cache svd i fd =
    if ltb i (length cache) then some (set cache i (entry_of svd fd)) else none

-- A loop that runs to the end leaves 40 for the index, the number of the entries.
unfoldable pub insert_into_cache : List Entry → ServerDetails → ℕ → Option (List Entry)
unfolding update_cache_entry
insert_into_cache cache svd fd = elim (find_index (stops_at svd.ip) cache) [
  | none ↦ update_cache_entry cache svd (length cache) fd
  | some i ↦ update_cache_entry cache svd i fd
]

-- What a client is told of an entry. `strlen` reads the address as a string.
unfoldable pub hwaddr_of : Entry → HwAddr
hwaddr_of e = record {
  sll_ifindex = e.index;
  sll_hatype = 1;
  sll_halen = length (c_string e.mac);
  sll_addr = e.mac ++ (0 ∷ 0 ∷ []);
}

-- The writes of a reply: to `fd`, or to the descriptor in the entry where `fd` is -1 (`none`). The
-- one in the entry is closed.
unfoldable pub answer_entry : Entry → Option ℕ → List Out
answer_entry e fd =
    reply (elim fd [ none ↦ e.fd | some d ↦ d ]) (hwaddr_of e)
    ∷ (if ltb 0 e.fd then close e.fd ∷ [] else [])

-- The reply of an entry that the loop has stopped at.
reply_at : List Entry → ℕ → Entry → Option ℕ → Option (List Entry × List Out)
reply_at cache i e fd =
    if e.filled == 1 then some (set cache i (record e { fd = no_fd }), answer_entry e fd) else none

-- `none` where the code returns 0.
unfoldable pub send_reply : List Entry → Bytes → Option ℕ → Option (List Entry × List Out)
unfolding reply_at
send_reply cache ip fd = elim (find_index (stops_at ip) cache) [
  | none ↦ none
  | some i ↦ elim (get_elem? cache i) [ none ↦ none | some e ↦ reply_at cache i e fd ]
]

abbrev pub has_ip : Bytes → Entry → Bool
has_ip ip e = str_eq e.ip ip

abbrev pub learned : ArpReqReply → Entry → Entry
learned p e = record e { mac = p.sender_eth; index = 2; filled = 1 }

learn_at : List Entry → ArpReqReply → ℕ → List Entry
learn_at cache p i = elim (get_elem? cache i) [ none ↦ cache | some e ↦ set cache i (learned p e) ]

-- The flag is the result. This loop does not stop at an entry that is not filled.
unfoldable pub update_response_in_cache : List Entry → ArpReqReply → List Entry × Bool
unfolding learn_at
update_response_in_cache cache p = elim (find_index (has_ip p.sender_ip) cache) [
  | none ↦ (cache, false)
  | some i ↦ (learn_at cache p i, true)
]

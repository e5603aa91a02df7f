-- ===== src/Transfer/Addresses.antt =====
-- The addresses of the host in hw2/common.c, and how main of hw2/client.c chooses the address of the
-- server. The list of interfaces, as Get_ifi_info_plus gives it, is an argument.
use network_programming.Base.{
  ◌>>=◌, Bool, not, ◌&&◌, is_some, ℕ, ◌+◌, Option, none, some, List, [], ◌∷◌, ◌++◌, map,
  length-append, get_elem?-append_at, set-append_at, append_snoc, length, get_elem?, set,
  if◌then◌else◌, Bytes, str_eq, ◌≡◌, refl, ◌∙◌, ap, arith, inl, inr, Option-cases, Bool-cases,
  str_eq_refl,
}
use network_programming.Transfer.Locality.{IAddr, localhost, check_addr_local}

-- The two addresses of an entry of the list, which may be missing.
pub record IfiInfo (Sockaddr : Type 0) : Type 0 where
  pub ifi_addr : Option Sockaddr
  pub ifi_ntmaddr : Option Sockaddr

module _ {Sockaddr : Type 0} where
  -- The loop counts the entries.
  unfoldable pub count_from : ℕ → List (IfiInfo Sockaddr) → ℕ
  count_from count [] = count
  count_from count (ifi ∷ rest) = count_from (count + 1) rest

  unfoldable pub get_addr_count : List (IfiInfo Sockaddr) → ℕ
  get_addr_count list = count_from 0 list

  -- The parameter is Sock_ntop_host.
  module _ (sock_ntop_host : Sockaddr → Bytes) where
    -- What the two tests make of an element of the array.
    unfoldable pub fill_one : IfiInfo Sockaddr → IAddr → IAddr
    fill_one ifi a = record {
      ip_addr = elim ifi.ifi_addr [ none ↦ a.ip_addr | some sa ↦ sock_ntop_host sa ];
      mask = elim ifi.ifi_ntmaddr [ none ↦ a.mask | some sa ↦ sock_ntop_host sa ];
    }

    abbrev pub writes_nothing : IfiInfo Sockaddr → Bool
    writes_nothing ifi = not (is_some ifi.ifi_addr) && not (is_some ifi.ifi_ntmaddr)

    -- The loop from element `count` on; `none` is a write behind the array.
    unfoldable pub fill_from : ℕ → List (IfiInfo Sockaddr) → List IAddr → Option (List IAddr)
    fill_from count [] addr = some addr
    fill_from count (ifi ∷ rest) addr = elim (get_elem? addr count) [
      | none ↦
          let more = fill_from (count + 1) rest addr in if writes_nothing ifi then more else none
      | some a ↦ fill_from (count + 1) rest (set addr count (fill_one ifi a))
    ]

    unfoldable pub fill_addr_contents : List (IfiInfo Sockaddr) → List IAddr → Option (List IAddr)
    fill_addr_contents list addr = fill_from 0 list addr

    -- The start of main: the array has an element for each interface, with `junk` in it. The result is
    -- the address to send to and the index that check_addr_local finds for it. The parameters are
    -- inet_pton and gethostbyaddr, whose result is null for an address without a name; `none` is a read
    -- behind the array, or through that null pointer.
    module _ (s_addr : Bytes → ℕ) (gethostbyaddr : ℕ → Option Bytes) where
      -- It reads `h_name` of the result without a check.
      unfoldable pub get_host : Bytes → Option Bytes
      get_host ip_addr = elim (gethostbyaddr (s_addr ip_addr)) [
        | none ↦ none
        | some h_name ↦ some h_name
      ]

      unfoldable pub choose_server : Bytes → List IAddr → Option Bytes
      choose_server server_ip addr = do
        servhost ← get_host server_ip
        a ← get_elem? addr 1
        clihost ← get_host a.ip_addr
        some (if str_eq clihost servhost then localhost else server_ip)

      unfoldable pub locate : Bytes → List (IfiInfo Sockaddr) → List IAddr → Option (Bytes × ℕ)
      locate server_ip list junk = elim (fill_addr_contents list junk) [
        | none ↦ none
        | some addr ↦ elim (choose_server server_ip addr) [
          | none ↦ none
          | some ip ↦ some (ip, check_addr_local s_addr ip addr)
        ]
      ]

    -- Interfaces that have both addresses, and what is to be kept of them.
    abbrev pub given : Sockaddr × Sockaddr → IfiInfo Sockaddr
    given (sa, ntm) = record { ifi_addr = some sa; ifi_ntmaddr = some ntm }

    abbrev pub shown : Sockaddr × Sockaddr → IAddr
    shown (sa, ntm) = record { ip_addr = sock_ntop_host sa; mask = sock_ntop_host ntm }

    fill-shown :
        (ps : List (Sockaddr × Sockaddr)) (done junk : List IAddr)
        → length junk ≡ length ps
        → fill_from (length done) (map given ps) (done ++ junk) ≡ some (done ++ map shown ps)
    unfolding fill_from fill_one
    fill-shown [] done [] l = refl
    fill-shown [] done (a ∷ junk) l = absurd (omega arith)
    fill-shown (p ∷ ps) done [] l = absurd (omega arith)
    fill-shown (p ∷ ps) done (a ∷ junk) l =
        let one_more : length (done ++ shown p ∷ []) ≡ length done + 1 =
          ground (arith, length-append done (shown p ∷ [])) in
        let rest = fill-shown ps (done ++ shown p ∷ []) junk (omega arith) in
        rw (fill_from, get_elem?-append_at done a junk, set-append_at done a junk (shown p))
          (rw one_more at rest
            ∙ ap (λ (l : List IAddr). some l) (append_snoc done (shown p) (map shown ps)))

    count_from-length :
        (n : ℕ) (ps : List (Sockaddr × Sockaddr)) → count_from n (map given ps) ≡ n + length ps
    unfolding count_from
    count_from-length n [] = omega arith
    count_from-length n (p ∷ ps) = omega (arith, count_from-length (n + 1) ps)

    filled :
        (ps : List (Sockaddr × Sockaddr)) (junk : List IAddr)
        → length junk ≡ get_addr_count (map given ps)
        → fill_addr_contents (map given ps) junk ≡ some (map shown ps)
    unfolding fill_addr_contents get_addr_count
    filled ps junk l = fill-shown ps [] junk (omega (arith, count_from-length 0 ps))

    module _ (s_addr : Bytes → ℕ) (gethostbyaddr : ℕ → Option Bytes) where
      check_addr_local-localhost : (addr : List IAddr) → check_addr_local s_addr localhost addr ≡ 1
      unfolding check_addr_local
      check_addr_local-localhost addr = rw (str_eq_refl localhost) refl

      -- What is sent to, once both names are found.
      abbrev pub turned_to : Bytes → List IAddr → Bytes → Bytes → Bytes × ℕ
      turned_to server_ip addr clihost servhost =
          if str_eq clihost servhost
          then (localhost, 1)
          else (server_ip, check_addr_local s_addr server_ip addr)

      choice :
          (server_ip : Bytes) (addr : List IAddr)
          → (elim (choose_server s_addr gethostbyaddr server_ip addr) as (λ _. Option (Bytes × ℕ)) [
            | none ↦ none
            | some ip ↦ some (ip, check_addr_local s_addr ip addr)
          ])
            ≡ (elim (gethostbyaddr (s_addr server_ip)) as (λ _. Option (Bytes × ℕ)) [
              | none ↦ none
              | some servhost ↦ elim (get_elem? addr 1) as (λ _. Option (Bytes × ℕ)) [
                | none ↦ none
                | some a ↦ elim (gethostbyaddr (s_addr a.ip_addr)) as (λ _. Option (Bytes × ℕ)) [
                  | none ↦ none
                  | some clihost ↦ some (turned_to server_ip addr clihost servhost)
                ]
              ]
            ])
      unfolding choose_server get_host
      choice server_ip addr = elim (Option-cases (gethostbyaddr (s_addr server_ip))) [
        | inl m ↦ rw m refl
        | inr (servhost, m) ↦ elim (Option-cases (get_elem? addr 1)) [
          | inl n ↦ rw (m, n) refl
          | inr (a, n) ↦ elim (Option-cases (gethostbyaddr (s_addr a.ip_addr))) [
            | inl k ↦ rw (m, n, k) refl
            | inr (clihost, k) ↦ elim (Bool-cases (str_eq clihost servhost)) [
              | inl e ↦ rw (m, n, k, e) (rw (check_addr_local-localhost addr) refl)
              | inr e ↦ rw (m, n, k, e) refl
            ]
          ]
        ]
      ]

      -- On a host where every interface has an IP address and a netmask, an array with an element for
      -- each interface is filled with them, whatever was in it. When there are at least two, and
      -- `gethostbyaddr` finds a name for the second address and for that of the server, the client turns
      -- to its own host, at 127.0.0.1 and index 1, exactly if the two names are equal, and else to the
      -- server, at the index that check_addr_local finds among the addresses. With fewer interfaces it
      -- reads behind the array, and with no name for one of the two addresses it reads through a null
      -- pointer.
      pub locate_lem :
          (server_ip : Bytes) (ps : List (Sockaddr × Sockaddr)) (junk : List IAddr)
          → length junk ≡ get_addr_count (map given ps)
          → (fill_addr_contents (map given ps) junk ≡ some (map shown ps))
            × (locate s_addr gethostbyaddr server_ip (map given ps) junk
                ≡ (elim (gethostbyaddr (s_addr server_ip)) as (λ _. Option (Bytes × ℕ)) [
                  | none ↦ none
                  | some servhost ↦ elim (get_elem? (map shown ps) 1) as (λ _. Option (Bytes × ℕ)) [
                    | none ↦ none
                    | some a ↦
                        elim (gethostbyaddr (s_addr a.ip_addr)) as (λ _. Option (Bytes × ℕ)) [
                          | none ↦ none
                          | some clihost ↦
                              some (turned_to server_ip (map shown ps) clihost servhost)
                        ]
                  ]
                ]))
      unfolding locate
      locate_lem server_ip ps junk l =
          let e = filled ps junk l in (e, rw (locate, e) (choice server_ip (map shown ps)))

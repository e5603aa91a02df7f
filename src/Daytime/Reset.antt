-- ===== src/Daytime/Reset.antt =====
-- What the client reports when the connection is reset.
use network_programming.Base.{List, [], ◌∷◌, ◌++◌, ◌≡◌, refl}
use network_programming.Echo.{Reading, line, closed, failed}
use network_programming.Daytime.{time_server}

-- Whatever came before, the client reports a reset in the same words as the end of the connection.
reset_misreported :
    (rs : List Reading) → time_server (rs ++ (failed ∷ [])) ≡ time_server (rs ++ (closed ∷ []))
unfolding time_server
reset_misreported [] = refl
reset_misreported (line b ∷ rs) = rw (reset_misreported rs) refl
reset_misreported (closed ∷ rs) = refl
reset_misreported (failed ∷ rs) = refl

-- ===== src/Tunnel/Dial.antt =====
-- The public proxy's way to a tunnel.
use secure_network.Prelude.{ℕ, ◌≡◌, ◌≢◌, [], ◌∷◌, ◌++◌, arith, Bytes, All, lookup-insert_self, ok}
use secure_network.Strings.HostPort.{IsPlainHost, split_host-append, first_part-append}
use secure_network.Tunnel.{Tunnels, claim, dial}

-- A label of a host name: no dot, no colon and no bracket.
abbrev pub IsLabel : Bytes → Type 0
IsLabel sub = All (λ c. c ≢ b'.') sub × IsPlainHost sub

IsPlainHost-append : (s t : Bytes) → IsPlainHost s → IsPlainHost t → IsPlainHost (s ++ t)
IsPlainHost-append [] t hs ht = ht
IsPlainHost-append (c ∷ s) t hs ht = (hs.0, IsPlainHost-append s t hs.1 ht)

-- Just after a tunnel was registered, dialling any host of a domain whose first label is the
-- tunnel's, with any port, reaches its connection, if the subdomain is one label and the domain and
-- the port hold no colon or bracket.
pub dial-claim :
    (conn : ℕ) (sub domain port : Bytes) (t : Tunnels)
    → IsLabel sub
    → IsPlainHost domain
    → IsPlainHost port
    → dial ((sub ++ (b'.' ∷ domain)) ++ (b':' ∷ port)) (claim conn sub t) ≡ ok conn
unfolding dial claim
dial-claim conn sub domain port t (label, plain) hd hp =
    let host =
      split_host-append (sub ++ (b'.' ∷ domain)) port
        (IsPlainHost-append sub (b'.' ∷ domain) plain ((omega arith, omega arith, omega arith), hd))
        hp in
    ground
      (arith, host, first_part-append b'.' sub domain label, lookup-insert_self sub conn t.tunnels)

-- ===== src/Tunnel/Takeover.antt =====
-- Registering a tunnel, and what the goroutines that wait for closed connections make of it.
use mathlib.Core.Logic.{inl, inr}
use secure_network.Prelude.{
  ℕ, ◌≡◌, ◌≢◌, ◌⊎◌, ◌↔◌, refl, ap, ap₂, sym, subst, true, List, [], ◌∷◌, ◌++◌, Option, none, some,
  arith, Bytes, text, eq_refl, lookup, insert, lookup-insert_self, lookup-insert_ne, lookup-delete,
  AllEntries, AllEntries-insert, AllEntries-delete_ne, AllEntries-map, AllEntries-lookup,
  Bool-cases, Result, ok, err,
}
use secure_network.Json.{JsonText}
use secure_network.Wire.{TunnelAuthPayload, unmarshal_tunnel_auth}
use secure_network.Tunnel.{
  Services, TunnelError, forbidden, Tunnels, authenticate, claim, admit, register_tunnel, close,
  cleanup,
}

abbrev pub Has : ℕ → List ℕ → Type 0
Has c [] = ⊥
Has c (d ∷ ds) = (d ≡ c) ⊎ Has c ds

-- A goroutine waits for the connection, to take down the subdomain.
abbrev pub Watched : ℕ → Bytes → List (ℕ × Bytes) → Type 0
Watched c sub [] = ⊥
Watched c sub ((d, name) ∷ ws) = ((d ≡ c) × (name ≡ sub)) ⊎ Watched c sub ws

module _ {S : Type 0} (env : Services S) (conn : ℕ) (sub : Bytes) (t : Tunnels) where
  abbrev pub IsAllowed : Result TunnelError Bytes → Type 0
  IsAllowed r =
      (subject : Bytes) × (r ≡ ok subject)
      × (env.evaluate subject (text "bind") (text "tunnel:" ++ sub) ≡ true)

  -- What registering leaves, after the authentication's result: exactly where the identity is
  -- authenticated and the policy engine lets it bind the tunnel, the error is nil; then the subdomain
  -- belongs to the new connection and the one that held it is closed, and the others are as they
  -- were. Otherwise nothing changes.
  abbrev pub Registers : Result TunnelError Bytes → Tunnels × S × Option TunnelError → Type 0
  Registers r (t', s', e) =
      ((e ≡ none) ↔ IsAllowed r)
      × (e ≡ none → lookup sub t'.tunnels ≡ some conn)
      × ((old : ℕ) → e ≡ none → lookup sub t.tunnels ≡ some old → Has old t'.closed)
      × ((name : Bytes) → sub ≢ name → lookup name t'.tunnels ≡ lookup name t.tunnels)
      × (e ≢ none → t' ≡ t)

  claim-Registers :
      (subject : Bytes) (s : S)
      → env.evaluate subject (text "bind") (text "tunnel:" ++ sub) ≡ true
      → Registers (ok subject) (claim conn sub t, s, none)
  unfolding claim
  claim-Registers subject s allowed = (
    (λ _. (subject, refl, allowed), λ _. refl),
    λ _. lookup-insert_self sub conn t.tunnels,
    λ old _ found. ground arith,
    λ name ne. lookup-insert_ne sub name conn t.tunnels ne,
    λ ne. absurd (ne refl),
  )

  refuse-Registers :
      (r : Result TunnelError Bytes) (s : S) (e : TunnelError)
      → ¬ IsAllowed r
      → Registers r (t, s, some e)
  refuse-Registers r s e refused =
      ((λ h. cc, λ h. absurd (refused h)), λ h. cc, λ old h found. cc, λ name ne. refl, λ ne. refl)

module _ {S : Type 0} (j : JsonText) (env : Services S) (conn : ℕ) (sub : Bytes) (t : Tunnels) where
  admit-Registers :
      (r : S × Result TunnelError Bytes) → Registers env conn sub t r.1 (admit j env conn sub t r)
  unfolding admit
  admit-Registers (s, err e) = refuse-Registers env conn sub t (err e) s e (λ (x, h, _). cc)
  admit-Registers (s, ok subject) =
      elim (Bool-cases (env.evaluate subject (text "bind") (text "tunnel:" ++ sub))) [
        | inl allowed ↦ rw (allowed) (claim-Registers env conn sub t subject s allowed)
        | inr refused ↦ rw (refused) (
            refuse-Registers env conn sub t (ok subject) s forbidden
              (λ (x, h, yes_x). ground arith))
      ]

-- RegisterTunnel of a message that parses: it returns nil exactly where the message's identity is
-- authenticated and the policy engine lets the subject bind the tunnel. Then the subdomain belongs to
-- the new connection, the connection that held it before is closed, and the other subdomains are as
-- they were. Where it returns an error, no tunnel changes.
pub register_tunnel-Registers :
    {S : Type 0} (j : JsonText) (env : Services S) (now conn : ℕ) (auth_msg : Bytes) (t : Tunnels)
    (s : S) (msg : TunnelAuthPayload)
    → unmarshal_tunnel_auth j auth_msg ≡ some msg
    → Registers env conn msg.subdomain t
        (authenticate env now msg s).1
        (register_tunnel j env now conn auth_msg t s)
unfolding register_tunnel
register_tunnel-Registers j env now conn auth_msg t s msg parsed =
    rw (parsed, register_tunnel)
      (admit-Registers j env conn msg.subdomain t (authenticate env now msg s))

-- One step: a connection takes a subdomain, a connection ends, or the goroutine of a watcher whose
-- connection is closed takes the subdomain down.
pub data Step (t u : Tunnels) : Type 0 where
  claims : (conn : ℕ) (sub : Bytes) → u ≡ claim conn sub t → Step t u
  closes : (conn : ℕ) → u ≡ close conn t → Step t u
  cleans :
      (before after : List (ℕ × Bytes)) (conn : ℕ) (sub : Bytes)
      → t.watchers ≡ before ++ ((conn, sub) ∷ after)
      → Has conn t.closed
      → u ≡ cleanup (conn, sub) (before ++ after) t
      → Step t u

pub data Reach (t : Tunnels) : Tunnels → Type 0 where
  here : Reach t t
  next : {u v : Tunnels} → Reach t u → Step u v → Reach t v

abbrev IsWatched : Tunnels → Type 0
IsWatched t = AllEntries (λ sub conn. Watched conn sub t.watchers) t.tunnels

Watched-drop :
    (c d : ℕ) (sub name : Bytes) (before after : List (ℕ × Bytes))
    → sub ≢ name
    → Watched c sub (before ++ ((d, name) ∷ after))
    → Watched c sub (before ++ after)
Watched-drop c d sub name [] after ne (inl (_, e)) = absurd (ne (sym e))
Watched-drop c d sub name [] after ne (inr w) = w
Watched-drop c d sub name ((x, n) ∷ before) after ne (inl h) = inl h
Watched-drop c d sub name ((x, n) ∷ before) after ne (inr w) =
    inr (Watched-drop c d sub name before after ne w)

Step-IsWatched : {t u : Tunnels} → Step t u → IsWatched t → IsWatched u
unfolding claim close cleanup
Step-IsWatched {t} (claims conn sub e) h = rw e (
    AllEntries-insert (λ name c. Watched c name ((conn, sub) ∷ t.watchers)) sub conn t.tunnels
      (inl (refl, refl)) (AllEntries-map _ _ t.tunnels (λ name c w. inr w) h))
Step-IsWatched (closes conn e) h = rw e h
Step-IsWatched {t} (cleans before after conn sub split due e) h = rw e (
    AllEntries-delete_ne (λ name c. Watched c name t.watchers)
      (λ name c. Watched c name (before ++ after)) sub t.tunnels
      (λ name c ne w.
        Watched-drop c conn name sub before after ne (subst (λ ws. Watched c name ws) split w))
      h)

abbrev pub no_tunnels : Tunnels
no_tunnels = record { tunnels = []; watchers = []; closed = [] }

Reach-IsWatched : {t : Tunnels} → Reach no_tunnels t → IsWatched t
Reach-IsWatched here = tt
Reach-IsWatched (next r st) = Step-IsWatched st (Reach-IsWatched r)

-- No dead tunnel stays: in every state that registrations, closed connections and the goroutines can
-- reach from an empty table, if no goroutine is due, that is, no watched connection is closed, then
-- the connection of every tunnel is open.
pub Reach-open :
    {t : Tunnels} (sub : Bytes) (conn : ℕ)
    → Reach no_tunnels t
    → ((c : ℕ) (name : Bytes) → Watched c name t.watchers → ¬ Has c t.closed)
    → lookup sub t.tunnels ≡ some conn
    → ¬ Has conn t.closed
Reach-open {t} sub conn r idle found = idle conn sub (
    AllEntries-lookup (λ name c. Watched c name t.watchers) sub t.tunnels found (Reach-IsWatched r))

Watched-split :
    (c : ℕ) (sub : Bytes) (ws : List (ℕ × Bytes))
    → Watched c sub ws
    → (before : List (ℕ × Bytes)) × (after : List (ℕ × Bytes)) × (ws ≡ before ++ ((c, sub) ∷ after))
Watched-split c sub [] h = absurd h
Watched-split c sub ((d, name) ∷ ws) (inl (e, e')) = ([], ws, ap₂ (λ x y. (x, y) ∷ ws) e e')
Watched-split c sub ((d, name) ∷ ws) (inr w) =
    let (before, after, e) = Watched-split c sub ws w in
    ((d, name) ∷ before, after, ap (λ r. (d, name) ∷ r) e)

-- A takeover is lost: where, in a state reachable from an empty table, one connection holds a
-- subdomain and another, open one registers the same subdomain, the new tunnel is in place, but the goroutine
-- of the connection that was closed for it is then due, and takes down the subdomain, though its new
-- connection is open.
pub takeover_lost :
    {t : Tunnels} (sub : Bytes) (old new : ℕ)
    → Reach no_tunnels t
    → lookup sub t.tunnels ≡ some old
    → old ≢ new
    → ¬ Has new t.closed
    → let t' = claim new sub t in
      (lookup sub t'.tunnels ≡ some new)
      × ((u : Tunnels) × Step t' u × (lookup sub u.tunnels ≡ none) × (¬ Has new u.closed))
unfolding claim cleanup
takeover_lost {t} sub old new r found ne live =
    let watched =
      AllEntries-lookup (λ name c. Watched c name t.watchers) sub t.tunnels found
        (Reach-IsWatched r) in
    let (before, after, split) = Watched-split old sub t.watchers watched in
    (
      lookup-insert_self sub new t.tunnels,
      (
        cleanup (old, sub) ((new, sub) ∷ (before ++ after)) (claim new sub t),
        cleans ((new, sub) ∷ before) after old sub (ap (λ ws. (new, sub) ∷ ws) split)
            (rw found (inl refl)) refl,
        ground (arith, lookup-delete sub sub (insert sub new t.tunnels), eq_refl sub),
        rw found (λ h. elim h [ inl e ↦ ne e | inr w ↦ live w ]),
      ),
    )

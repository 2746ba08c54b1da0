-- ===== src/Strings/HostPort.antt =====
-- net.SplitHostPort, of which the program uses the host, and the first part of strings.Split.
use secure_network.Prelude.{
  ℕ, ◌≡◌, ◌≢◌, refl, Bool, false, ◌||◌, [], ◌∷◌, ◌++◌, Option, none, some, arith, Bytes, All, eqb,
  if◌then◌else◌, text,
}

contains : ℕ → Bytes → Bool
contains c [] = false
contains c (d ∷ s) = eqb d c || contains c s

abbrev prepend : ℕ → Option (Bytes × Bytes) → Option (Bytes × Bytes)
prepend c none = none
prepend c (some (s, t)) = some (c ∷ s, t)

-- What stands before and behind the first `c`.
break_first : ℕ → Bytes → Option (Bytes × Bytes)
break_first c [] = none
break_first c (d ∷ s) =
    let more = prepend d (break_first c s) in if eqb d c then some ([], s) else more

abbrev or_here : ℕ → ℕ → Bytes → Option (Bytes × Bytes) → Option (Bytes × Bytes)
or_here c d s none = if eqb d c then some ([], s) else none
or_here c d s (some (a, b)) = some (d ∷ a, b)

-- What stands before and behind the last `c`.
break_last : ℕ → Bytes → Option (Bytes × Bytes)
break_last c [] = none
break_last c (d ∷ s) = or_here c d s (break_last c s)

-- A host in brackets: the first `]` closes it.
abbrev bracketed : Bytes → Option (Bytes × Bytes) → Option Bytes
bracketed port none = none
bracketed port (some (inner, (c ∷ s))) = none
bracketed port (some (inner, [])) =
    if contains b'[' inner || contains b'[' port || contains b']' port then none else some inner

host_of : Bytes → Bytes → Option Bytes
host_of [] port = if contains b'[' port || contains b']' port then none else some []
host_of (c ∷ h) port =
    if eqb c b'['
    then bracketed port (break_first b']' h)
    else if contains b':' (c ∷ h)
        || contains b'[' (c ∷ h)
        || contains b']' (c ∷ h)
        || contains b'[' port
        || contains b']' port
    then none
    else some (c ∷ h)

abbrev host_before : Option (Bytes × Bytes) → Option Bytes
host_before none = none
host_before (some (h, port)) = host_of h port

-- The host that SplitHostPort returns, or `none` for its error.
unfoldable pub split_host : Bytes → Option Bytes
unfolding host_of break_last break_first contains
split_host s = host_before (break_last b':' s)

-- strings.Split(s, c)[0]
unfoldable pub first_part : ℕ → Bytes → Bytes
first_part c [] = []
first_part c (d ∷ s) = let more = d ∷ first_part c s in if eqb d c then [] else more

-- No colon and no bracket.
abbrev pub IsPlainHost : Bytes → Type 0
IsPlainHost = All (λ c. (c ≢ b':') × (c ≢ b'[') × (c ≢ b']'))

contains_plain :
    (s : Bytes)
    → IsPlainHost s
    → (contains b':' s ≡ false) × (contains b'[' s ≡ false) × (contains b']' s ≡ false)
unfolding contains
contains_plain [] h = (refl, refl, refl)
contains_plain (c ∷ s) h = ground (arith, contains_plain s h.1)

break_last-none : (s : Bytes) → IsPlainHost s → break_last b':' s ≡ none
unfolding break_last
break_last-none [] h = refl
break_last-none (c ∷ s) h = ground (arith, break_last-none s h.1)

break_last-append :
    (s port : Bytes) → IsPlainHost port → break_last b':' (s ++ (b':' ∷ port)) ≡ some (s, port)
unfolding break_last
break_last-append [] port h = ground (arith, break_last-none port h)
break_last-append (c ∷ s) port h = ground (arith, break_last-append s port h)

-- A host and a port with a colon between them are split again.
pub split_host-append :
    (host port : Bytes)
    → IsPlainHost host
    → IsPlainHost port
    → split_host (host ++ (b':' ∷ port)) ≡ some host
unfolding split_host host_of
split_host-append [] port hh hp =
    ground (arith, break_last-append [] port hp, contains_plain port hp)
split_host-append (c ∷ host) port hh hp = ground (
  arith,
  break_last-append (c ∷ host) port hp,
  contains_plain (c ∷ host) hh,
  contains_plain port hp,
)

pub first_part-append : (c : ℕ) (s t : Bytes) → All (λ d. d ≢ c) s → first_part c (s ++ (c ∷ t)) ≡ s
unfolding first_part
first_part-append c [] t h = ground arith
first_part-append c (d ∷ s) t h = ground (arith, first_part-append c s t h.1)

split_host_test :
    (split_host (text "[::1]:80") ≡ some (text "::1"))
    × (split_host (text "a.b:443") ≡ some (text "a.b"))
    × (split_host (text "a.b") ≡ none)
    × (split_host (text "a:b:443") ≡ none)
unfolding split_host
split_host_test = (refl, refl, refl, refl)

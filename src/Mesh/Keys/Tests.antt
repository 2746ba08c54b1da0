-- ===== src/Mesh/Keys/Tests.antt =====
-- The theorem on a node's keys at a concrete store.
use secure_network.Prelude.{
  false, true, eq_iff, IsDistinct, ◌≡◌, ◌++◌, refl, [], ◌∷◌, none, some, Bytes, text, Map, lookup,
  ok, arith,
}
use secure_network.Platform.{Transport}
use secure_network.Mesh.Keys.{
  Keys, KeyStore, put_all, IsKeyStore, load, load_or_generate_keys, new_mesh_node,
  load_or_generate_keys-again,
}

-- The later entries of a name lie behind the new ones.
abbrev store : KeyStore (Map Bytes)
store = record {
  get = lookup;
  begin = λ s. s;
  put = λ key v s. ((key, v) ∷ s, true);
  commit = λ s. (s, true);
}

lookup-put_all_absent :
    (key : Bytes) (puts s : Map Bytes)
    → lookup key puts ≡ none
    → lookup key (put_all store puts s).0 ≡ lookup key s
unfolding put_all lookup
lookup-put_all_absent key [] s absent = refl
lookup-put_all_absent key ((k, w) ∷ puts) s absent =
    ground (arith, lookup-put_all_absent key puts ((k, w) ∷ s))

lookup-put_all :
    (key v : Bytes) (puts s : Map Bytes)
    → IsDistinct puts
    → lookup key puts ≡ some v
    → lookup key (put_all store puts s).0 ≡ some v
unfolding put_all lookup
lookup-put_all key v [] s d e = absurd (ground arith)
lookup-put_all key v ((k, w) ∷ puts) s (fresh, d) e = ground (
  arith,
  eq_iff k key,
  lookup-put_all key v puts ((k, w) ∷ s) d,
  lookup-put_all_absent k puts ((k, w) ∷ s) fresh,
)

store-IsKeyStore : IsKeyStore store
store-IsKeyStore = record {
  get-commit =
      λ puts s key v distinct put_done done found. lookup-put_all key v puts s distinct found;
}

abbrev net : Transport
net = record {
  Stream = Bytes;
  Fault = Unit {0};
  write = λ w p. (w ++ p, none);
  Cipher = Unit {0};
  encrypt = λ c p. (some p, c);
  decrypt = λ c p. (some p, c);
}

abbrev keys : Keys
keys = record { noise_priv = text "a"; noise_pub = text "b"; dbsc_priv = text "c" }

abbrev after : Map Bytes
after =
    (text "data:mesh_dbsc_priv", text "c")
    ∷ (text "data:mesh_noise_pub", text "b")
    ∷ (text "data:mesh_noise_priv", text "a")
    ∷ []

-- The keys are generated, and found again although others could be.
load_or_generate_keys-again_example :
    (load_or_generate_keys store (some (text "x", text "y")) (some (text "z")) after
      ≡ (ok keys, after))
    × (new_mesh_node store net (some (text "x", text "y")) (some (text "z")) after ≡ (
      ok (record { noise_pub = text "b"; stream = none; cs_send = none; cs_recv = none }),
      after,
    ))
unfolding lookup load load_or_generate_keys put_all
load_or_generate_keys-again_example =
    load_or_generate_keys-again store store-IsKeyStore net (some (text "a", text "b"))
      (some (text "x", text "y")) (some (text "c")) (some (text "z")) [] after keys refl
      (λ absent. refl)

-- A store whose Puts fail and whose Commit does not.
abbrev lossy : KeyStore (Map Bytes)
lossy = record store { put = λ key v s. (s, false) }

keys_lost :
    (load_or_generate_keys lossy (some (text "a", text "b")) (some (text "c")) [] ≡ (ok keys, []))
    × (load lossy [] ≡ none)
unfolding lookup load load_or_generate_keys put_all
keys_lost = (refl, refl)

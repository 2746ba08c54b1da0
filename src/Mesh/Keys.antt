-- ===== src/Mesh/Keys.antt =====
-- loadOrGenerateKeys and NewMeshNode of mesh.go. The store and the generation of keys are parameters. The
-- reads are one transaction, which changes nothing, and the writes another; the state of the store holds
-- what an open transaction has put.
mod Tests
use secure_network.Prelude.{
  sym, ◌∙◌, Bool, true, false, ◌&&◌, ℕ, ◌≡◌, ◌≢◌, refl, ap, List, [], ◌∷◌, Option, none, some,
  Bytes, text, Map, lookup, IsDistinct, arith, Result, ok, err, Option-cases, inl, inr, ◌==◌,
}
use secure_network.Platform.{Transport}
use secure_network.Mesh.{MeshNode}

-- SdfEngine.Store: Get, whose error is `none`, Begin of a transaction, Put into it and its Commit, with
-- whether they returned nil.
pub record KeyStore (S : Type 0) : Type 0 where
  pub get : Bytes → S → Option Bytes
  pub begin : S → S
  pub put : Bytes → Bytes → S → S × Bool
  pub commit : S → S × Bool

-- The Puts of a transaction, one after the other, and whether all returned nil.
unfoldable pub put_all : {S : Type 0} → KeyStore S → Map Bytes → S → S × Bool
put_all store [] s = (s, true)
put_all store ((key, v) ∷ puts) s =
    let (s', done) = store.put key v s in
    let (s'', all_done) = put_all store puts s' in (s'', done && all_done)

-- What a store promises: where every Put of a transaction and its Commit returned nil, Get returns what was
-- Put. Nothing is promised where a Put failed.
pub record IsKeyStore {S : Type 0} (store : KeyStore S) : Type 0 where
  pub get-commit :
      (puts : Map Bytes) (s : S) (key v : Bytes)
      → IsDistinct puts
      → (put_all store puts (store.begin s)).1 ≡ true
      → (store.commit (put_all store puts (store.begin s)).0).1 ≡ true
      → lookup key puts ≡ some v
      → store.get key (store.commit (put_all store puts (store.begin s)).0).0 ≡ some v

pub record Keys : Type 0 where
  pub noise_priv : Bytes
  pub noise_pub : Bytes
  pub dbsc_priv : Bytes

pub data KeyError : Type 0 where
  no_keypair no_dbsc_key not_stored : KeyError

abbrev noise_priv_key : Bytes
noise_priv_key = text "data:mesh_noise_priv"

abbrev noise_pub_key : Bytes
noise_pub_key = text "data:mesh_noise_pub"

abbrev dbsc_priv_key : Bytes
dbsc_priv_key = text "data:mesh_dbsc_priv"

abbrev puts_of : Keys → Map Bytes
puts_of k =
    (noise_priv_key, k.noise_priv)
    ∷ (noise_pub_key, k.noise_pub)
    ∷ (dbsc_priv_key, k.dbsc_priv)
    ∷ []

-- All three, or none.
abbrev all_stored : Option Bytes → Option Bytes → Option Bytes → Option Keys
all_stored (some a) (some b) (some c) =
    some (record { noise_priv = a; noise_pub = b; dbsc_priv = c })
all_stored _ _ _ = none

module _ {S : Type 0} (store : KeyStore S) where
  -- After Commit; a failed Commit is the only error.
  abbrev committed : Keys → S × Bool → Result KeyError Keys × S
  committed k (s, true) = (ok k, s)
  committed k (s, false) = (err not_stored, s)

  -- The private and the public Noise key, and the key of ed25519, that are generated: `none` is an error.
  -- The errors of Put are dropped.
  generate : Option (Bytes × Bytes) → Option Bytes → S → Result KeyError Keys × S
  unfolding put_all
  generate none dbsc s = (err no_keypair, s)
  generate (some kp) none s = (err no_dbsc_key, s)
  generate (some (priv, public)) (some dbsc) s =
      let k : Keys = record { noise_priv = priv; noise_pub = public; dbsc_priv = dbsc } in
      committed k (store.commit (put_all store (puts_of k) (store.begin s)).0)

  unfoldable pub load : S → Option Keys
  load s =
      all_stored (store.get noise_priv_key s) (store.get noise_pub_key s)
        (store.get dbsc_priv_key s)

  abbrev loaded_or :
      Option (Bytes × Bytes) → Option Bytes → S → Option Keys → Result KeyError Keys × S
  loaded_or kp dbsc s (some k) = (ok k, s)
  loaded_or kp dbsc s none = generate kp dbsc s

  unfoldable pub load_or_generate_keys :
      Option (Bytes × Bytes) → Option Bytes → S → Result KeyError Keys × S
  unfolding generate load
  load_or_generate_keys kp dbsc s = loaded_or kp dbsc s (load s)

  abbrev node_of : (net : Transport) → Result KeyError Keys × S → Result KeyError (MeshNode net) × S
  node_of net (err e, s) = (err e, s)
  node_of net (ok k, s) =
      (ok (record { noise_pub = k.noise_pub; stream = none; cs_send = none; cs_recv = none }), s)

  unfoldable pub new_mesh_node :
      (net : Transport)
      → Option (Bytes × Bytes)
      → Option Bytes
      → S
      → Result KeyError (MeshNode net) × S
  new_mesh_node net kp dbsc s = node_of net (load_or_generate_keys kp dbsc s)

  node_of-stream :
      (net : Transport) (o : Result KeyError Keys × S) (m : MeshNode net) (s' : S)
      → node_of net o ≡ (ok m, s')
      → m.stream ≡ none
  node_of-stream net (err e, s) m s' made = absurd (ground arith)
  node_of-stream net (ok k, s) m s' made = ground arith

  pub new_mesh_node-stream :
      (net : Transport) (kp : Option (Bytes × Bytes)) (dbsc : Option Bytes) (s s' : S)
      (m : MeshNode net)
      → new_mesh_node net kp dbsc s ≡ (ok m, s')
      → m.stream ≡ none
  unfolding new_mesh_node
  new_mesh_node-stream net kp dbsc s s' m made =
      node_of-stream net (load_or_generate_keys kp dbsc s) m s' made

  -- Whether every Put of the keys returned nil.
  abbrev pub puts_done : Keys → S → Bool
  puts_done k s = (put_all store (puts_of k) (store.begin s)).1

  module _ (law : IsKeyStore store) where
    load-puts_of :
        (k : Keys) (s : S)
        → let (s', done) = store.commit (put_all store (puts_of k) (store.begin s)).0 in
          puts_done k s ≡ true → done ≡ true → load s' ≡ some k
    unfolding load lookup ◌==◌
    load-puts_of k s put_done done =
        let distinct : IsDistinct (puts_of k) = (refl, (refl, (refl, tt))) in
        let a =
          law.get-commit (puts_of k) s noise_priv_key k.noise_priv distinct put_done done refl in
        let b =
          law.get-commit (puts_of k) s noise_pub_key k.noise_pub distinct put_done done refl in
        let c =
          law.get-commit (puts_of k) s dbsc_priv_key k.dbsc_priv distinct put_done done refl in
        rw a (rw b (rw c refl))

    committed_ok :
        (made k : Keys) (r : S × Bool) (s' : S)
        → committed made r ≡ (ok k, s')
        → (made ≡ k) × (r ≡ (s', true))
    committed_ok made k (s, true) s' e = ground arith
    committed_ok made k (s, false) s' e = absurd (ground arith)

    generate-load :
        (kp : Option (Bytes × Bytes)) (dbsc : Option Bytes) (s s' : S) (k : Keys)
        → generate kp dbsc s ≡ (ok k, s')
        → puts_done k s ≡ true
        → load s' ≡ some k
    unfolding generate
    generate-load none dbsc s s' k e put_done = absurd (ground arith)
    generate-load (some kp) none s s' k e put_done = absurd (ground arith)
    generate-load (some (priv, public)) (some dbsc) s s' k e put_done =
        let made : Keys = record { noise_priv = priv; noise_pub = public; dbsc_priv = dbsc } in
        let (same, result) =
          committed_ok made k (store.commit (put_all store (puts_of made) (store.begin s)).0) s'
            e in
        let loaded =
          load-puts_of made s (ap (λ k. puts_done k s) same ∙ put_done) (ap (λ r. r.1) result) in
        sym (ap (λ r. load r.0) result) ∙ loaded ∙ ap some same

    loaded_or-load :
        (kp : Option (Bytes × Bytes)) (dbsc : Option Bytes) (s s' : S) (k : Keys) (o : Option Keys)
        → load s ≡ o
        → loaded_or kp dbsc s o ≡ (ok k, s')
        → (o ≡ none → puts_done k s ≡ true)
        → load s' ≡ some k
    loaded_or-load kp dbsc s s' k none is_none e put_done =
        generate-load kp dbsc s s' k e (put_done refl)
    loaded_or-load kp dbsc s s' k (some found) is_found e put_done = ground arith

    -- A machine keeps its identity where the store keeps what is put into it. Take a store whose Get returns
    -- what a transaction put if every Put and the Commit returned nil, and a call of loadOrGenerateKeys
    -- that returned keys: loaded ones, or generated ones of which every Put returned nil, which the code
    -- does not check. Then any later call on the store as it was left returns the same keys, whatever keys
    -- could be generated then, and changes nothing; so the node that NewMeshNode makes has the same public
    -- key.
    pub load_or_generate_keys-again :
        (net : Transport) (kp kp' : Option (Bytes × Bytes)) (dbsc dbsc' : Option Bytes) (s s' : S)
        (k : Keys)
        → load_or_generate_keys kp dbsc s ≡ (ok k, s')
        → (load s ≡ none → puts_done k s ≡ true)
        → (load_or_generate_keys kp' dbsc' s' ≡ (ok k, s'))
          × (new_mesh_node net kp' dbsc' s' ≡ (
            ok (record { noise_pub = k.noise_pub; stream = none; cs_send = none; cs_recv = none }),
            s',
          ))
    unfolding load_or_generate_keys generate new_mesh_node
    load_or_generate_keys-again net kp kp' dbsc dbsc' s s' k e put_done =
        let loaded = loaded_or-load kp dbsc s s' k (load s) refl e put_done in
        (
          ap (loaded_or kp' dbsc' s') loaded,
          ap (λ o. node_of net (loaded_or kp' dbsc' s' o)) loaded,
        )

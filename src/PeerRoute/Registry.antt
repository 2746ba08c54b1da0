-- ===== src/PeerRoute/Registry.antt =====
-- The map of peers: its keys are the hexadecimal node ids of the objects that it refers to.
use secure_network.Prelude.{
  ℕ, ◌≡◌, refl, ◌≢◌, [], ◌∷◌, Option, none, some, arith, Bytes, Map, lookup, IsDistinct,
  insert-IsDistinct, delete-IsDistinct, AllEntries, AllEntries-insert, AllEntries-delete,
  AllEntries-lookup,
}
use secure_network.Strings.Hex.{encode_hex, encode_hex_injective, IsByteList}
use secure_network.PeerRoute.{
  Store, PeerRoute, add_peer, remove_peer, get_peer, touch_peer, touched, new_peer_route,
}

-- What an entry of the map says about the store.
abbrev pub IsKeyOf : Store → Bytes → ℕ → Type 0
IsKeyOf store k peer = encode_hex (store peer).node_id ≡ k

-- Each entry stands under the id of its object, and no id has two entries.
pub record IsIndexed {S : Type 0} (store : Store) (pr : PeerRoute S) : Type 0 where
  pub keyed : AllEntries (IsKeyOf store) pr.peers
  pub distinct : IsDistinct pr.peers

touched_node_id :
    (now : ℕ) (store : Store) (o : Option ℕ) (q : ℕ)
    → (touched now store o q).node_id ≡ (store q).node_id
touched_node_id now store none q = refl
touched_node_id now store (some peer) q = ground arith

AllEntries-touched :
    (now : ℕ) (store : Store) (o : Option ℕ) (m : Map ℕ)
    → AllEntries (IsKeyOf store) m
    → AllEntries (IsKeyOf (touched now store o)) m
AllEntries-touched now store o [] h = tt
AllEntries-touched now store o ((k, v) ∷ m) h =
    (rw (touched_node_id now store o v) h.0, AllEntries-touched now store o m h.1)

module _ {S : Type 0} where
  new_peer_route-IsIndexed : (store : Store) → IsIndexed store (new_peer_route {S = S})
  unfolding new_peer_route
  new_peer_route-IsIndexed store = record { keyed = tt; distinct = tt }

  -- An empty registry is indexed, and AddPeer, RemovePeer and TouchPeer, which writes to the shared
  -- object, keep the registry indexed: each entry stands under the id of the object it refers to,
  -- and no id has two entries.
  pub operations-IsIndexed :
      (store : Store)
      → IsIndexed store (new_peer_route {S = S})
        × ((pr : PeerRoute S)
            → IsIndexed store pr
            → ((peer : ℕ) → IsIndexed store (add_peer store peer pr))
              × ((id : Bytes) → IsIndexed store (remove_peer id pr))
              × ((now : ℕ) (id : Bytes) → IsIndexed (touch_peer now id pr store) pr))
  unfolding add_peer remove_peer touch_peer
  operations-IsIndexed store = (
    new_peer_route-IsIndexed store,
    λ pr v. (
      λ peer. record {
        keyed = AllEntries-insert (IsKeyOf store) _ peer pr.peers refl v.keyed;
        distinct = insert-IsDistinct _ peer pr.peers v.distinct;
      },
      λ id. record {
        keyed = AllEntries-delete (IsKeyOf store) _ pr.peers v.keyed;
        distinct = delete-IsDistinct _ pr.peers v.distinct;
      },
      λ now id. record {
        keyed = AllEntries-touched now store (lookup (encode_hex id) pr.peers) pr.peers v.keyed;
        distinct = v.distinct;
      },
    ),
  )

  module _ (store : Store) (pr : PeerRoute S) (id : Bytes) (bytes : IsByteList id) where
    -- In an indexed registry, the object that GetPeer finds under an id has that id, and TouchPeer
    -- of the id sets that object's time and nothing else of it, and leaves every other object as it
    -- is.
    pub touch_peer-get_peer :
        (now : ℕ) (peer : ℕ)
        → IsIndexed store pr
        → IsByteList (store peer).node_id
        → get_peer id pr ≡ some peer
        → ((store peer).node_id ≡ id)
          × (touch_peer now id pr store peer ≡ record (store peer) { last_seen = now })
          × ((q : ℕ) → q ≢ peer → touch_peer now id pr store q ≡ store q)
    unfolding get_peer touch_peer
    touch_peer-get_peer now peer v hb found = (
      encode_hex_injective (store peer).node_id id hb bytes
          (AllEntries-lookup (IsKeyOf store) (encode_hex id) pr.peers found v.keyed),
      ground arith,
      λ q ne. ground arith,
    )

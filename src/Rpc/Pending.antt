-- ===== src/Rpc/Pending.antt =====
-- Call: the entry of a pending call goes with the call.
use secure_network.Prelude.{
  ℕ, ◌≡◌, ◌≢◌, refl, true, Option, none, some, arith, Bytes, ◌==◌, lookup, insert, lookup-insert,
  lookup-delete, if◌then◌else◌, Result, err, is_some,
}
use secure_network.Strings.Hex.{encode_hex}
use secure_network.Json.{JsonText}
use secure_network.Platform.{Transport}
use secure_network.Mesh.{MeshNode}
use secure_network.PeerRoute.{RouteError}
use secure_network.Rpc.{
  RpcManager, CallError, Wake, response, done, timeout, begin_call, end_call, waiter_answer, begun,
  woken, cancelled, timed_out,
}

module _ (net : Transport) (j : JsonText) (sha256 : Bytes → Bytes) {S : Type 0} where
  begun_failed :
      (key id : Bytes) (m : RpcManager S) (e : Option RouteError)
      → is_some (begun key m e).1 ≡ true
      → lookup id (begun key m e).0.pending ≡ (if key == id then none else lookup id m.pending)
  unfolding begun
  begun_failed key id m none h = cc
  begun_failed key id m (some e) h =
      ground (
        arith,
        lookup-delete key id (insert key none m.pending),
        lookup-insert key id none m.pending,
      )

  woken_ended :
      (key id : Bytes) (m : RpcManager S) (r : Option (Result CallError Bytes))
      → is_some (woken key m r).1 ≡ true
      → lookup id (woken key m r).0.pending ≡ (if key == id then none else lookup id m.pending)
  unfolding woken
  woken_ended key id m none h = cc
  woken_ended key id m (some r) h = lookup-delete key id m.pending

  end_call_ended :
      (wake : Wake) (bytes id : Bytes) (m : RpcManager S)
      → (is_some (end_call wake bytes m).1 ≡ true
          → lookup id (end_call wake bytes m).0.pending
            ≡ (if encode_hex bytes == id then none else lookup id m.pending))
        × (wake ≢ response → is_some (end_call wake bytes m).1 ≡ true)
  unfolding end_call woken
  end_call_ended response bytes id m = (
    woken_ended (encode_hex bytes) id m (waiter_answer (lookup (encode_hex bytes) m.pending)),
    λ ne. absurd (ne refl),
  )
  end_call_ended done bytes id m =
      (woken_ended (encode_hex bytes) id m (some (err cancelled)), λ ne. refl)
  end_call_ended timeout bytes id m =
      (woken_ended (encode_hex bytes) id m (some (err timed_out)), λ ne. refl)

  -- No call leaves an entry behind: where sending the request fails, and where Call ends by a
  -- response, by its context or by the timeout, its id is pending no longer, and the calls of all
  -- other ids are as they were.
  pub call_leaves_nothing :
      (now : ℕ) (bytes target method payload : Bytes) (m : RpcManager S)
      (mesh : Option (MeshNode net)) (wake : Wake) (id : Bytes)
      → let (sent, _, failure) = begin_call net j sha256 now bytes target method payload m mesh in
        let (left, result) = end_call wake bytes m in
        (is_some failure ≡ true
          → lookup id sent.pending ≡ (if encode_hex bytes == id then none else lookup id m.pending))
        × (is_some result ≡ true
            → lookup id left.pending
              ≡ (if encode_hex bytes == id then none else lookup id m.pending))
        × ((wake ≢ response) → is_some result ≡ true)
  unfolding begin_call
  call_leaves_nothing now bytes target method payload m mesh wake id = (
    begun_failed (encode_hex bytes) id m _,
    (end_call_ended wake bytes id m).0,
    (end_call_ended wake bytes id m).1,
  )

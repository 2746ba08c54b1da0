-- ===== src/Mesh/Attestation/Tests.antt =====
-- The theorems on VerifyMachineIdentity at a concrete host.
use secure_network.Prelude.{◌≡◌, refl, true, [], none, some, Bytes, text, ◌==◌}
use secure_network.Strings.Base64.{decode_base64}
use secure_network.Platform.{Engine}
use secure_network.Mesh.Attestation.{
  Attestation, verify_machine_identity, verify_machine_identity_iff,
  verify_machine_identity_ambiguous,
}

-- A stored user is its ID, which is its key, and the empty signature is valid.
abbrev host : Attestation Bytes
host = record {
  get = λ key s. some s;
  user_id = λ u. some u;
  RsaKey = Bytes;
  decode_public = λ id. some (some id);
  verify = λ key hash sig. sig == [];
}

abbrev agree : Engine Bytes
agree script tx s = (s, true)

verify_machine_identity_iff_example :
    (verify_machine_identity host
      (λ b. b)
      agree
      (text "ann")
      (text "7")
      []
      (text "ssh")
      (text "k")).1
    ≡ none
unfolding decode_base64 ◌==◌
verify_machine_identity_iff_example =
    (verify_machine_identity_iff host (λ b. b) agree (text "ann") (text "7") [] (text "ssh")
        (text "k")).1
      (record {
        user_bytes = text "k";
        id = text "k";
        key = text "k";
        sig = [];
        is_stored = refl;
        identifies = refl;
        is_rsa = refl;
        decodes = refl;
        agrees = refl;
        signs = refl;
      })

verify_machine_identity_ambiguous_example :
    verify_machine_identity host (λ b. b) agree (text "ann") (text "7|a") [] (text "ssh") (text "k")
    ≡ verify_machine_identity host
        (λ b. b)
        agree
        (text "ann")
        (text "7")
        []
        (text "a|ssh")
        (text "k")
verify_machine_identity_ambiguous_example =
    verify_machine_identity_ambiguous host (λ b. b) agree (text "ann") (text "7") (text "a") []
      (text "ssh") (text "k")

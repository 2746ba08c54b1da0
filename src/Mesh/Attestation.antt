-- ===== src/Mesh/Attestation.antt =====
-- VerifyMachineIdentity of mesh.go. The store, the stored user, TPM and RSA keys and SHA-256 are parameters.
mod Tests
use secure_network.Prelude.{
  ℕ, ◌≡◌, ◌≢◌, ◌↔◌, refl, ap, sym, ◌∙◌, Bool, true, false, [], ◌∷◌, ◌++◌, append_assoc, Option,
  none, some, Bytes, text, arith, Result, ok, err, Option-cases, Bool-cases, inl, inr, ◌>>=◌,
  if◌then◌else◌,
}
use secure_network.Strings.Base64.{decode_base64}
use secure_network.Platform.{Engine, DataInvocation, proof_of_poss}

-- Get of the store, Unmarshal of a PasskeyUser, of which the ID is read, tpm2.DecodePublic with Key, whose
-- result is `some none` where it is no RSA key, and rsa.VerifyPKCS1v15 under SHA-256: `none` and `false` are
-- errors.
pub record Attestation (S : Type 0) : Type 1 where
  pub get : Bytes → S → Option Bytes
  pub user_id : Bytes → Option Bytes
  pub RsaKey : Type 0
  pub decode_public : Bytes → Option (Option RsaKey)
  pub verify : RsaKey → Bytes → Bytes → Bool

pub data VerifyError : Type 0 where
  no_user bad_user bad_public_key not_rsa bad_encoding blocked bad_signature : VerifyError

pub verification_script : Bytes → Bytes
verification_script username =
    text "identity:verification(user(\""
    ++ (username ++ text "\") verification_type(\"machine_attestation\"))")

pub verification_invocation : Bytes → DataInvocation
verification_invocation username = record {
  target_address = text "identity:check:hardware:" ++ username;
  caller = text "mesh-network-verification-kernel";
  nonce = 0;
  method = text "VERIFY_MACHINE";
  profile = proof_of_poss;
  args = [];
}

-- The text that is signed.
abbrev pub signed_text : Bytes → Bytes → Bytes
signed_text nonce scope = nonce ++ (text "|" ++ scope)

abbrev some_or : {A : Type 0} → VerifyError → Option A → Result VerifyError A
some_or e none = err e
some_or e (some a) = ok a

abbrev rsa_or : {A : Type 0} → Option A → Result VerifyError A
rsa_or o = some_or not_rsa o

module _ {S : Type 0} (host : Attestation S) (sha256 : Bytes → Bytes) (compile : Engine S) where
  -- What is read before the SDF engine is asked: the key and the signature.
  pub read_identity : Bytes → Bytes → S → Result VerifyError (host.RsaKey × Bytes)
  read_identity username signature s = do
    user_bytes ← some_or no_user (host.get (text "data:user:" ++ username) s)
    id ← some_or bad_user (host.user_id user_bytes)
    public ← some_or bad_public_key (host.decode_public id)
    key ← rsa_or public
    sig ← some_or bad_encoding (decode_base64 signature)
    ok (key, sig)

  abbrev checked_by : Bytes → host.RsaKey × Bytes → S × Bool → S × Option VerifyError
  checked_by payload (key, sig) (s, false) = (s, some blocked)
  checked_by payload (key, sig) (s, true) =
      (s, if host.verify key (sha256 payload) sig then none else some bad_signature)

  abbrev verified :
      Bytes → Bytes → S → Result VerifyError (host.RsaKey × Bytes) → S × Option VerifyError
  verified username payload s (err e) = (s, some e)
  verified username payload s (ok identity) =
      checked_by payload identity
        (compile (verification_script username) (verification_invocation username) s)

  pub verify_machine_identity : Bytes → Bytes → Bytes → Bytes → S → S × Option VerifyError
  verify_machine_identity username nonce signature scope s =
      verified username (signed_text nonce scope) s (read_identity username signature s)

  module _ (username nonce signature scope : Bytes) (s : S) where
    pub record IsAttested : Type 0 where
      pub user_bytes : Bytes
      pub id : Bytes
      pub key : host.RsaKey
      pub sig : Bytes
      pub is_stored : host.get (text "data:user:" ++ username) s ≡ some user_bytes
      pub identifies : host.user_id user_bytes ≡ some id
      pub is_rsa : host.decode_public id ≡ some (some key)
      pub decodes : decode_base64 signature ≡ some sig
      pub agrees :
          (compile (verification_script username) (verification_invocation username) s).1 ≡ true
      pub signs : host.verify key (sha256 (signed_text nonce scope)) sig ≡ true

    read_identity-ok :
        (key : host.RsaKey) (sig : Bytes)
        → read_identity username signature s ≡ ok (key, sig)
        → (compile (verification_script username) (verification_invocation username) s).1 ≡ true
        → host.verify key (sha256 (signed_text nonce scope)) sig ≡ true
        → IsAttested
    unfolding read_identity
    read_identity-ok key sig e agrees signs =
        elim (Option-cases (host.get (text "data:user:" ++ username) s)) [
          | inl absent ↦ absurd (ground arith)
          | inr (user_bytes, stored) ↦ elim (Option-cases (host.user_id user_bytes)) [
            | inl bad ↦ absurd (ground arith)
            | inr (id, identifies) ↦ elim (Option-cases (host.decode_public id)) [
              | inl bad ↦ absurd (ground arith)
              | inr (public, decoded) ↦ elim (Option-cases public) [
                | inl bad ↦ absurd (ground arith)
                | inr (key', is_rsa) ↦ elim (Option-cases (decode_base64 signature)) [
                  | inl bad ↦ absurd (ground arith)
                  | inr (sig', decodes) ↦ record {
                    user_bytes = user_bytes;
                    id = id;
                    key = key';
                    sig = sig';
                    is_stored = stored;
                    identifies = identifies;
                    is_rsa = decoded ∙ ap some is_rsa;
                    decodes = decodes;
                    agrees = agrees;
                    signs = ground arith;
                  }
                ]
              ]
            ]
          ]
        ]

    verified-IsAttested :
        (o : Result VerifyError (host.RsaKey × Bytes))
        → read_identity username signature s ≡ o
        → (verified username (signed_text nonce scope) s o).1 ≡ none
        → IsAttested
    verified-IsAttested (err e) read passed = absurd (ground arith)
    verified-IsAttested (ok (key, sig)) read passed =
        read_identity-ok key sig read (ground arith) (ground arith)

    -- VerifyMachineIdentity returns nil exactly where the user is stored with an ID that is an RSA key, the
    -- signature is base64, the SDF engine agrees, and the signature of the nonce, a bar and the scope is
    -- valid under that key.
    pub verify_machine_identity_iff :
        ((verify_machine_identity username nonce signature scope s).1 ≡ none) ↔ IsAttested
    unfolding verify_machine_identity read_identity
    verify_machine_identity_iff =
        (verified-IsAttested (read_identity username signature s) refl, λ h. ground arith)

  -- A signature is not bound to where the nonce ends: one for a nonce and a scope that has a bar in it counts
  -- for the longer nonce and the rest of the scope, and the other way round.
  pub verify_machine_identity_ambiguous :
      (username nonce middle signature scope : Bytes) (s : S)
      → verify_machine_identity username (nonce ++ (text "|" ++ middle)) signature scope s
        ≡ verify_machine_identity username nonce signature (middle ++ (text "|" ++ scope)) s
  unfolding verify_machine_identity
  verify_machine_identity_ambiguous username nonce middle signature scope s =
      ap (λ p. verified username p s (read_identity username signature s))
        (append_assoc nonce (text "|" ++ middle) (text "|" ++ scope))

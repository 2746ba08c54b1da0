-- ===== src/Platform.antt =====
-- What the program calls and does not implement: QUIC streams, Noise ciphers, SHA-256, the SDF engine
-- and what registered callbacks do. They enter as parameters: the types and operations of the
-- transport, and operations on the state `S` of everything outside the program's own structs.
use secure_network.Prelude.{ℕ, Bool, List, Option, Bytes}

-- quic-go streams and flynn/noise cipher states. `none` is a nil error of Write, and an error of
-- Encrypt or Decrypt.
pub record Transport : Type 1 where
  pub Stream : Type 0
  pub Fault : Type 0
  pub write : Stream → Bytes → Stream × Option Fault
  pub Cipher : Type 0
  pub encrypt : Cipher → Bytes → Option Bytes × Cipher
  pub decrypt : Cipher → Bytes → Option Bytes × Cipher

pub data Profile : Type 0 where
  proof_of_poss grant : Profile

pub data Arg : Type 0 where
  int_arg : ℕ → Arg
  text_arg : Bytes → Arg

-- secure_data_format.DataInvocation
pub record DataInvocation : Type 0 where
  pub target_address : Bytes
  pub caller : Bytes
  pub nonce : ℕ
  pub method : Bytes
  pub profile : Profile
  pub args : List (Bytes × Arg)

-- CompileSecureData of the SDF engine: whether it returned a nil error. It may change its state.
abbrev pub Engine : Type 0 → Type 0
Engine S = Bytes → DataInvocation → S → S × Bool

-- A registered callback: it may change the state, and returns an error's text or nil.
abbrev pub Handler : Type 0 → Type 0 → Type 0
Handler S A = A → S → S × Option Bytes

-- ===== src/External.antt =====
-- What the modelled code calls and does not implement: the hash functions behind internal/crypto,
-- `hexutil.Decode` of go-ethereum, `uuid.FromBytes` of google/uuid, and the base64 decoders. No law
-- of them is assumed.
use go_m_layer.Prelude.{Str, ℕ, List, Outcome}

abbrev pub Bytes : Type 0
Bytes = List ℕ

pub record External : Type 0 where
  pub sha256 : Bytes → Bytes
  pub keccak256 : Bytes → Bytes
  -- of a text that begins with 0x
  pub hexutil_decode : Str → Outcome Bytes
  -- the canonical text of a UUID of sixteen bytes, an error for any other length
  pub uuid_from_bytes : Bytes → Outcome Str
  -- base64.StdEncoding.DecodeString and base64.RawStdEncoding.DecodeString
  pub base64_decode : Str → Outcome Bytes
  pub base64_raw_decode : Str → Outcome Bytes
  -- the bytes that base64.StdEncoding.DecodeString returns beside an error
  pub base64_partial : Str → Bytes

-- ===== src/Session.antt =====
-- src/session.rs: `SessionMaterial::load`, which reads the provider's session from two private files.
-- The file system and the cipher are an interface.
use Prim.Native.Char.{code}
use ratatoskr_channel_digest.Prelude.{
  ℕ, ◌/◌, ◌%◌, String, Bool, not, ◌||◌, Option, none, some, [], ◌∷◌, ltb, leb, ◌==◌, if◌then◌else◌,
  length, take, drop,
}
use ratatoskr_channel_digest.Contracts.{Bytes}
use ratatoskr_channel_digest.Storage.{Result, ok, err, and_then}
use ratatoskr_channel_digest.Config.{ProviderConfig}

pub data SessionError : Type 0 where
  invalid : SessionError

-- `std::fs::Metadata` as far as the source looks at it.
pub record Metadata : Type 0 where
  pub is_file : Bool
  pub len : ℕ
  pub mode : ℕ

-- `std::fs` and `chacha20poly1305`. A file may change between its metadata and its text.
pub record SessionFiles : Type 0 where
  pub metadata : String → Option Metadata
  pub read_file : String → Option Bytes
  pub new_cipher : Bytes → Option ℕ
  pub decrypt : ℕ → Bytes → Bytes → Bytes → Option Bytes

abbrev pub nonce_bytes : ℕ
nonce_bytes = 24

abbrev pub key_bytes : ℕ
key_bytes = 32

abbrev pub max_session_bytes : ℕ
max_session_bytes = 1_048_576

-- The bytes of a text of ASCII.
abbrev pub ascii_bytes : String → Bytes
ascii_bytes String.[] = []
ascii_bytes (String.◌∷◌ c s) = code c ∷ ascii_bytes s

abbrev pub aad : Bytes
aad = ascii_bytes "ratatoskr-channel-digests-session-v1"

-- The test of `read_private_file`: `mode & 0o077 != 0` is that one of the six low bits is set, and
-- `mode & 0o400 == 0` that bit 8 is not.
abbrev pub is_refused : ℕ → Metadata → Bool
is_refused maximum m =
    not m.is_file
    || m.len == 0
    || ltb maximum m.len
    || not (m.mode % 64 == 0)
    || m.mode / 256 % 2 == 0

abbrev pub or_invalid : {A : Type 0} → Option A → Result SessionError A
or_invalid none = err SessionError.invalid
or_invalid (some a) = ok a

module _ (files : SessionFiles) where
  -- `read_private_file`
  unfoldable pub read_private_file : String → ℕ → Result SessionError Bytes
  read_private_file path maximum = and_then (or_invalid (files.metadata path)) λ m.
      if is_refused maximum m then err SessionError.invalid else or_invalid (files.read_file path)

  -- `SessionMaterial::load`
  unfoldable pub load : ProviderConfig → Result SessionError Bytes
  unfolding read_private_file
  load config = and_then (read_private_file config.session_key_file key_bytes) λ key.
      if not (length key == key_bytes)
      then err SessionError.invalid
      else and_then (read_private_file config.session_file max_session_bytes) λ encrypted.
        if leb (length encrypted) nonce_bytes
        then err SessionError.invalid
        else and_then (or_invalid (files.new_cipher key)) λ cipher.
          and_then
            (or_invalid
              (files.decrypt cipher (take nonce_bytes encrypted) (drop nonce_bytes encrypted) aad))
            λ plaintext. if length plaintext == 0 then err SessionError.invalid else ok plaintext

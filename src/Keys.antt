-- ===== src/Keys.antt =====
-- What the program uses of tailscale.com/types/key (a third-party package) and of the HMAC of the
-- standard library: parameters of the model, with their documented behaviour as laws.
use tailcat_quic.Base.{
  Eq, length, replicate, All, IsByte, ℕ, ◌≡◌, sym, ap, ◌∙◌, ◌↔◌, Bool, true, List,
}

-- key.NodePublic and key.DiscoPublic: comparable 32-byte keys. `raw` is AppendTo and Raw32,
-- `from_raw` is NodePublicFromRaw32 and DiscoPublicFromRaw32.
pub record KeyCodec (K : Type 0) : Type 0 where
  pub eq : Eq K
  pub raw : K → List ℕ
  pub from_raw : List ℕ → K
  pub is_zero : K → Bool
  pub length-raw : (k : K) → length (raw k) ≡ 32
  pub raw-IsByte : (k : K) → All IsByte (raw k)
  pub from_raw-raw : (k : K) → from_raw (raw k) ≡ k
  pub raw-from_raw : (b : List ℕ) → length b ≡ 32 → All IsByte b → raw (from_raw b) ≡ b
  pub is_zero_iff : (k : K) → (is_zero k ≡ true) ↔ (raw k ≡ replicate 32 0)

-- HMAC-SHA-256: a 32-byte tag of a message under a key.
pub record Hmac : Type 0 where
  pub tag : List ℕ → List ℕ → List ℕ
  pub length-tag : (k m : List ℕ) → length (tag k m) ≡ 32

-- Keys are equal if their bytes are.
pub raw-injective : {K : Type 0} (c : KeyCodec K) (a b : K) → c.raw a ≡ c.raw b → a ≡ b
raw-injective c a b h = sym (c.from_raw-raw a) ∙ ap c.from_raw h ∙ c.from_raw-raw b

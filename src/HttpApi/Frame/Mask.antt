-- ===== src/HttpApi/Frame/Mask.antt =====
-- Bytes: the header fields and the mask, checked at every byte.
use Prim.Native.Nat.{bit_and, bit_or, bit_xor}
use kamado_pool.Base.{
  ℕ, zero, suc, ◌+◌, ◌%◌, ◌<◌, ◌≡◌, refl, ap, Bool, true, ◌&&◌, List, [], ◌∷◌, arith, ◌==◌, ==_iff,
  if◌then◌else◌, false, Bool-cases, inl, inr, length, All,
}
use kamado_pool.HttpApi.Frame.{unmask}

-- whether the numbers under a limit pass a test
passes_under : (ℕ → Bool) → ℕ → Bool
passes_under test zero = true
passes_under test (suc k) = let lower = passes_under test k in if test k then lower else false

passes_under_lem :
    (test : ℕ → Bool) (limit v : ℕ) → passes_under test limit ≡ true → v < limit → test v ≡ true
unfolding passes_under
passes_under_lem test zero v ok h = elim h [ ]
passes_under_lem test (suc k) v ok h = elim (Bool-cases (v == k)) [
  | inl last ↦ let same = (==_iff v k).0 last in ground arith
  | inr other ↦ ground (arith, passes_under_lem test k v)
]

abbrev pub IsByte : ℕ → Type 0
IsByte b = b < 256

xor_table : passes_under (λ m. passes_under (λ p. bit_xor (bit_xor p m) m == p) 256) 256 ≡ true
unfolding passes_under
xor_table = refl

pub xor_twice : (p m : ℕ) → p < 256 → m < 256 → bit_xor (bit_xor p m) m ≡ p
xor_twice p m hp hm = (==_iff _ p).0 (
    passes_under_lem _ 256 p
      (passes_under_lem (λ m. passes_under (λ p. bit_xor (bit_xor p m) m == p) 256) 256 m xor_table
        hm)
      hp)

first_table : passes_under (λ op. bit_or 0x80 (bit_and op 0x0F) == 128 + op) 16 ≡ true
unfolding passes_under
first_table = refl

-- The first byte of a server frame is FIN and the opcode.
pub first_byte : (op : ℕ) → op < 16 → bit_or 0x80 (bit_and op 0x0F) ≡ 128 + op
first_byte op h =
    (==_iff _ _).0
      (passes_under_lem (λ op. bit_or 0x80 (bit_and op 0x0F) == 128 + op) 16 op first_table h)

opcode_table : passes_under (λ op. bit_and (128 + op) 0x0F == op) 16 ≡ true
unfolding passes_under
opcode_table = refl

pub opcode_of_first : (op : ℕ) → op < 16 → bit_and (128 + op) 0x0F ≡ op
opcode_of_first op h =
    (==_iff _ _).0 (passes_under_lem (λ op. bit_and (128 + op) 0x0F == op) 16 op opcode_table h)

masked_table :
    passes_under (λ n. (bit_and (128 + n) 0x7F == n) && (bit_and (128 + n) 0x80 == 128)) 128 ≡ true
unfolding passes_under
masked_table = refl

-- The second byte of a client frame: the mask bit and seven bits of length.
pub masked_byte : (n : ℕ) → n < 128 → (bit_and (128 + n) 0x7F ≡ n) × (bit_and (128 + n) 0x80 ≡ 128)
masked_byte n h = ground (
  arith,
  passes_under_lem (λ n. (bit_and (128 + n) 0x7F == n) && (bit_and (128 + n) 0x80 == 128)) 128 n
      masked_table h,
)

unmasked_table : passes_under (λ n. bit_and n 0x80 == 0) 128 ≡ true
unfolding passes_under
unmasked_table = refl

pub unmasked_byte : (n : ℕ) → n < 128 → bit_and n 0x80 ≡ 0
unmasked_byte n h =
    (==_iff _ _).0 (passes_under_lem (λ n. bit_and n 0x80 == 0) 128 n unmasked_table h)

-- RFC 6455's masking: each byte with the next one of the key, which goes round.
unfoldable pub masked : List ℕ → List ℕ → List ℕ
masked (a ∷ b ∷ c ∷ d ∷ []) (p ∷ ps) = bit_xor p a ∷ masked (b ∷ c ∷ d ∷ a ∷ []) ps
masked mask ps = ps

-- From each of the four places in the key.
unmask-masked_from :
    (a b c d : ℕ) (ps : List ℕ)
    → All IsByte (a ∷ b ∷ c ∷ d ∷ [])
    → All IsByte ps
    → (i : ℕ)
    → let mask : List ℕ = a ∷ b ∷ c ∷ d ∷ [] in
      (i % 4 ≡ 0 → unmask mask i (masked (a ∷ b ∷ c ∷ d ∷ []) ps) ≡ ps)
      × (i % 4 ≡ 1 → unmask mask i (masked (b ∷ c ∷ d ∷ a ∷ []) ps) ≡ ps)
      × (i % 4 ≡ 2 → unmask mask i (masked (c ∷ d ∷ a ∷ b ∷ []) ps) ≡ ps)
      × (i % 4 ≡ 3 → unmask mask i (masked (d ∷ a ∷ b ∷ c ∷ []) ps) ≡ ps)
unfolding unmask masked
unmask-masked_from a b c d [] hm hp i = (λ e. refl, λ e. refl, λ e. refl, λ e. refl)
unmask-masked_from a b c d (p ∷ ps) hm (h, hs) i =
    let next = unmask-masked_from a b c d ps hm hs (i + 1) in
    (
      λ e. ground (arith, xor_twice p a h hm.0, next.1 (omega arith)),
      λ e. ground (arith, xor_twice p b h hm.1.0, next.2 (omega arith)),
      λ e. ground (arith, xor_twice p c h hm.1.1.0, next.3 (omega arith)),
      λ e. ground (arith, xor_twice p d h hm.1.1.1.0, next.0 (omega arith)),
    )

pub unmask-masked :
    (a b c d : ℕ) (ps : List ℕ)
    → All IsByte (a ∷ b ∷ c ∷ d ∷ [])
    → All IsByte ps
    → unmask (a ∷ b ∷ c ∷ d ∷ []) 0 (masked (a ∷ b ∷ c ∷ d ∷ []) ps) ≡ ps
unmask-masked a b c d ps hm hp = (unmask-masked_from a b c d ps hm hp 0).0 refl

pub length-masked :
    (a b c d : ℕ) (ps : List ℕ) → length (masked (a ∷ b ∷ c ∷ d ∷ []) ps) ≡ length ps
unfolding masked
length-masked a b c d [] = refl
length-masked a b c d (p ∷ ps) = ap suc (length-masked b c d a ps)

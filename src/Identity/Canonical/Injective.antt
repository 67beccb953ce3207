-- ===== src/Identity/Canonical/Injective.antt =====
-- Proofs that CanonicalMessage is injective.
use phi_chain.Base.{
  ℕ, ◌/◌, ◌%◌, ◌^◌, ◌<◌, ◌≡◌, refl, sym, ◌∙◌, arith, List, [], ◌∷◌, ◌++◌, foldl, length,
  append_assoc, append-nil, All,
}
use phi_chain.Identity.Canonical.{u32_be, append_length_prefixed, canonical_message}

-- A length that fits its prefix.
unfoldable pub IsShort : List ℕ → Type 0
IsShort field = length field < 2 ^ 32

-- The fields one after another, each behind its length.
encode : List (List ℕ) → List ℕ
encode [] = []
encode (field ∷ fields) = u32_be (length field) ++ (field ++ encode fields)

foldl-encode :
    (dst : List ℕ) (fields : List (List ℕ))
    → foldl append_length_prefixed dst fields ≡ dst ++ encode fields
unfolding encode append_length_prefixed
foldl-encode dst [] = sym (append-nil dst)
foldl-encode dst (field ∷ fields) =
    foldl-encode ((dst ++ u32_be (length field)) ++ field) fields ∙ simp append_assoc

-- Four bytes give back a length below 2 ^ 32.
u32_be-injective :
    (m n : ℕ) (xs ys : List ℕ)
    → m < 2 ^ 32
    → n < 2 ^ 32
    → u32_be m ++ xs ≡ u32_be n ++ ys
    → (m ≡ n) × (xs ≡ ys)
unfolding u32_be
u32_be-injective m n xs ys h k e =
    let a : m / 2 ^ 24 % 256 ≡ n / 2 ^ 24 % 256 = cc in
    let b : m / 2 ^ 16 % 256 ≡ n / 2 ^ 16 % 256 = cc in
    let c : m / 2 ^ 8 % 256 ≡ n / 2 ^ 8 % 256 = cc in
    let d : m % 256 ≡ n % 256 = cc in (omega arith, cc)

append_split :
    (xs ys us vs : List ℕ) → length xs ≡ length ys → xs ++ us ≡ ys ++ vs → (xs ≡ ys) × (us ≡ vs)
append_split [] [] us vs h e = (refl, e)
append_split [] (y ∷ ys) us vs h e = absurd (omega arith)
append_split (x ∷ xs) [] us vs h e = absurd (omega arith)
append_split (x ∷ xs) (y ∷ ys) us vs h e =
    let rest = append_split xs ys us vs (omega arith) (cc) in (cc, rest.1)

encode-injective :
    (fields others : List (List ℕ))
    → All IsShort fields
    → All IsShort others
    → encode fields ≡ encode others
    → fields ≡ others
unfolding encode IsShort
encode-injective [] [] h k e = refl
encode-injective [] (o ∷ others) h k e = unfold u32_be in absurd (cc)
encode-injective (f ∷ fields) [] h k e = unfold u32_be in absurd (cc)
encode-injective (f ∷ fields) (o ∷ others) h k e =
    let (same, rest) =
      u32_be-injective (length f) (length o) (f ++ encode fields) (o ++ encode others) h.0 k.0 e in
    let (head, tail) = append_split f o (encode fields) (encode others) same rest in
    let later = encode-injective fields others h.1 k.1 tail in cc

-- Two messages with the same bytes have the same domain and the same fields, however many, where every
-- part is shorter than 2 ^ 32 bytes.
pub canonical_message-injective :
    (domain other : List ℕ) (fields others : List (List ℕ))
    → All IsShort (domain ∷ fields)
    → All IsShort (other ∷ others)
    → canonical_message domain fields ≡ canonical_message other others
    → (domain ≡ other) × (fields ≡ others)
unfolding canonical_message
canonical_message-injective domain other fields others h k e =
    let whole : encode (domain ∷ fields) ≡ encode (other ∷ others) =
      sym (foldl-encode [] (domain ∷ fields)) ∙ e ∙ foldl-encode [] (other ∷ others) in
    let same = encode-injective (domain ∷ fields) (other ∷ others) h k whole in (cc, cc)

-- ===== src/Dto/Slugs.antt =====
-- The pattern of slugs in src/modules/tenants/dto: which texts it accepts.
use multi_tenant_saas_gatewa.Common.{
  String, ◌≡◌, ◌↔◌, refl, sym, ap, ◌∙◌, Bool, true, false, ◌&&◌, List, [], ◌∷◌, all, arith,
  Bool-cases, inl, inr,
}
use multi_tenant_saas_gatewa.Dto.Tenants.{is_slug_char, is_hyphen, slug_from, is_slug}
use Prim.Native.Char.{Char}
use Prim.Native.String
use text.Mathlib.TextEquality.{Char-path}
use text.Mathlib.TextLemmas.{cons-append, nil-append}

-- The words with a hyphen between each two.
unfoldable pub join_hyphens : List String → String
join_hyphens [] = ""
join_hyphens (word ∷ words) = elim words [
  | [] ↦ word
  | ◌∷◌ next rest ↦ String.◌++◌ word (String.◌++◌ "-" (join_hyphens words))
]

-- Lower-case letters and digits only.
unfoldable pub is_alphanumeric : String → Bool
is_alphanumeric String.[] = true
is_alphanumeric (String.◌∷◌ c s) = is_slug_char c && is_alphanumeric s

-- At least one of them.
unfoldable pub is_word : String → Bool
unfolding is_alphanumeric
is_word String.[] = false
is_word (String.◌∷◌ c s) = is_slug_char c && is_alphanumeric s

-- After a first character, the rest of a word and a hyphen.
slug_from-append :
    (w rest : String)
    → is_alphanumeric w ≡ true
    → slug_from true (String.◌++◌ w (String.◌++◌ "-" rest)) ≡ slug_from false rest
unfolding slug_from is_alphanumeric
slug_from-append String.[] rest h =
    rw (nil-append (String.◌++◌ "-" rest), cons-append "-" "" rest, nil-append rest) refl
slug_from-append (String.◌∷◌ c w) rest h =
    let inner = slug_from-append w rest (ground (arith, h)) in
    let plain : is_slug_char c ≡ true = ground (arith, h) in
    rw (cons-append c w (String.◌++◌ "-" rest), plain, inner) refl

slug_from-word : (w : String) → is_alphanumeric w ≡ true → slug_from true w ≡ true
unfolding slug_from is_alphanumeric
slug_from-word String.[] h = refl
slug_from-word (String.◌∷◌ c w) h = ground (arith, h, slug_from-word w)

first_word :
    (w rest : String)
    → is_word w ≡ true
    → slug_from false (String.◌++◌ w (String.◌++◌ "-" rest)) ≡ slug_from false rest
unfolding slug_from is_word
first_word String.[] rest h = absurd (ground (arith, h))
first_word (String.◌∷◌ c w) rest h =
    let inner = slug_from-append w rest (ground (arith, h)) in
    let plain : is_slug_char c ≡ true = ground (arith, h) in
    rw (cons-append c w (String.◌++◌ "-" rest), plain, inner) refl

only_word : (w : String) → is_word w ≡ true → slug_from false w ≡ true
unfolding slug_from is_word
only_word String.[] h = absurd (ground (arith, h))
only_word (String.◌∷◌ c w) h = ground (arith, h, slug_from-word w)

slug_from-join_hyphens :
    (w : String) (words : List String)
    → all is_word (w ∷ words) ≡ true
    → slug_from false (join_hyphens (w ∷ words)) ≡ true
unfolding join_hyphens
slug_from-join_hyphens w [] h = only_word w (ground (arith, h))
slug_from-join_hyphens w (next ∷ rest) h =
    first_word w (join_hyphens (next ∷ rest)) (ground (arith, h))
    ∙ slug_from-join_hyphens next rest (ground (arith, h))

hyphen : (c : Char) → is_hyphen c ≡ true → c ≡ "-"
hyphen c h = Char-path c "-" (ground (arith, h))

join_hyphens-cons :
    (c : Char) (w : String) (words : List String)
    → join_hyphens (String.◌∷◌ c w ∷ words) ≡ String.◌∷◌ c (join_hyphens (w ∷ words))
unfolding join_hyphens
join_hyphens-cons c w [] = refl
join_hyphens-cons c w (next ∷ rest) = cons-append c w (String.◌++◌ "-" (join_hyphens (next ∷ rest)))

join_hyphens-hyphen :
    (w : String) (words : List String)
    → join_hyphens ("" ∷ w ∷ words) ≡ String.◌∷◌ "-" (join_hyphens (w ∷ words))
unfolding join_hyphens
join_hyphens-hyphen w words =
    nil-append (String.◌++◌ "-" (join_hyphens (w ∷ words)))
    ∙ cons-append "-" "" (join_hyphens (w ∷ words))
    ∙ ap (λ s. String.◌∷◌ "-" s) (nil-append (join_hyphens (w ∷ words)))

single : (w : String) → join_hyphens (w ∷ []) ≡ w
unfolding join_hyphens
single w = refl

-- A text read as words, the first of which may go on a word that was started before.
record Words (first : String → Bool) (s : String) : Type 0 where
  word : String
  words : List String
  word_good : first word ≡ true
  words_good : all is_word words ≡ true
  spells : join_hyphens (word ∷ words) ≡ s

-- A character of a word in front.
Words-cons :
    (first : String → Bool) (c : Char) (s : String)
    → ((w : String) → is_alphanumeric w ≡ true → first (String.◌∷◌ c w) ≡ true)
    → Words is_alphanumeric s
    → Words first (String.◌∷◌ c s)
Words-cons first c s good r = record {
  word = String.◌∷◌ c r.word;
  words = r.words;
  word_good = good r.word r.word_good;
  words_good = r.words_good;
  spells = join_hyphens-cons c r.word r.words ∙ ap (λ t. String.◌∷◌ c t) r.spells;
}

-- A hyphen in front, where a word was started before.
Words-hyphen :
    (c : Char) (s : String)
    → is_hyphen c ≡ true
    → Words is_word s
    → Words is_alphanumeric (String.◌∷◌ c s)
unfolding is_alphanumeric
Words-hyphen c s h r = record {
  word = "";
  words = r.word ∷ r.words;
  word_good = refl;
  words_good = ground (arith, r.word_good, r.words_good);
  spells =
      join_hyphens-hyphen r.word r.words
      ∙ ap (λ t. String.◌∷◌ "-" t) r.spells
      ∙ ap (λ d. String.◌∷◌ d s) (sym (hyphen c h));
}

mutual
  unfolding slug_from is_word is_alphanumeric

  within_word : (s : String) → slug_from true s ≡ true → Words is_alphanumeric s
  within_word String.[] h = record {
    word = "";
    words = [];
    word_good = refl;
    words_good = refl;
    spells = single "";
  }
  within_word (String.◌∷◌ c s) h = elim (Bool-cases (is_slug_char c)) [
    | inl plain ↦
        Words-cons is_alphanumeric c s (λ w g. ground (arith, plain, g))
          (within_word s (ground (arith, h, plain)))
    | inr other ↦
        let here : is_hyphen c ≡ true = ground (arith, h, other) in
        Words-hyphen c s here (at_word s (ground (arith, h, other, here)))
  ]

  at_word : (s : String) → slug_from false s ≡ true → Words is_word s
  at_word String.[] h = absurd (ground (arith, h))
  at_word (String.◌∷◌ c s) h = elim (Bool-cases (is_slug_char c)) [
    | inl plain ↦
        Words-cons is_word c s (λ w g. ground (arith, plain, g))
          (within_word s (ground (arith, h, plain)))
    | inr other ↦ absurd (ground (arith, h, other))
  ]

-- The pattern accepts exactly the texts that are words of lower-case letters and digits, at least one
-- word and none of them empty, with one hyphen between each two.
pub is_slug-join_hyphens :
    (s : String)
    → (is_slug s ≡ true) ↔ (
        (word : String) × (words : List String) × (all is_word (word ∷ words) ≡ true)
        × (join_hyphens (word ∷ words) ≡ s))
unfolding is_slug
is_slug-join_hyphens s = (
  λ h.
      let r = at_word s h in (r.word, r.words, ground (arith, r.word_good, r.words_good), r.spells),
  λ (word, words, good, spells).
      ap (slug_from false) (sym spells) ∙ slug_from-join_hyphens word words good,
)

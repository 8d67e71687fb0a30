-- ===== src/Pairing/Code.antt =====
-- internal/pairing/store.go: `ComparisonCode`. The digest is a parameter.
use mathlib.Core.List.{append_assoc}
use lanclip.Base.{
  ℕ, ◌%◌, ◌≡◌, Option, none, some, List, [], ◌∷◌, ◌++◌, map, Text, codes, text_eq, text_eq_iff,
  text_lt, text_lt_total, if◌then◌else◌, take, get_elem?, arith, Bool-cases, inl, inr,
}

-- strings.Join
unfoldable pub join : Text → List Text → Text
join sep [] = []
join sep (s ∷ []) = s
join sep (s ∷ t ∷ ts) = s ++ (sep ++ join sep (t ∷ ts))

abbrev pub words : List Text
words =
    codes "amber"
    ∷ codes "apple"
    ∷ codes "atlas"
    ∷ codes "birch"
    ∷ codes "blue"
    ∷ codes "bravo"
    ∷ codes "cedar"
    ∷ codes "coral"
    ∷ codes "delta"
    ∷ codes "ember"
    ∷ codes "falcon"
    ∷ codes "fern"
    ∷ codes "fjord"
    ∷ codes "gold"
    ∷ codes "harbor"
    ∷ codes "hazel"
    ∷ codes "indigo"
    ∷ codes "jade"
    ∷ codes "kiwi"
    ∷ codes "lake"
    ∷ codes "lemon"
    ∷ codes "lunar"
    ∷ codes "maple"
    ∷ codes "mesa"
    ∷ codes "navy"
    ∷ codes "olive"
    ∷ codes "onyx"
    ∷ codes "pearl"
    ∷ codes "pine"
    ∷ codes "quartz"
    ∷ codes "river"
    ∷ codes "robin"
    ∷ codes "sage"
    ∷ codes "silver"
    ∷ codes "solar"
    ∷ codes "stone"
    ∷ codes "tango"
    ∷ codes "terra"
    ∷ codes "tiger"
    ∷ codes "ultra"
    ∷ codes "violet"
    ∷ codes "willow"
    ∷ codes "winter"
    ∷ codes "xenon"
    ∷ codes "yellow"
    ∷ codes "zebra"
    ∷ []

abbrev pub word_count : ℕ
word_count = 46

-- words[int(b) % len(words)]; the index is in range.
abbrev pub or_empty : Option Text → Text
or_empty none = []
or_empty (some w) = w

unfoldable pub word : ℕ → Text
word b = or_empty (get_elem? words (b % word_count))

-- What one side shows: its ID, fingerprint and nonce.
pub record Side : Type 0 where
  pub id : Text
  pub fingerprint : Text
  pub nonce : Text

abbrev pub nul : Text
nul = 0 ∷ []

abbrev pub fields : Side → List Text
fields s = s.id ∷ s.fingerprint ∷ s.nonce ∷ []

-- The two sides joined, the smaller first.
unfoldable pub ordered : Side → Side → Text
ordered a b =
    if text_lt (join nul (fields b)) (join nul (fields a))
    then join nul (fields b ++ fields a)
    else join nul (fields a ++ fields b)

unfoldable pub comparison_code : (Text → Text) → Side → Side → Text
unfolding ordered word
comparison_code sum a b = join (b' ' ∷ []) (map word (take 6 (sum (ordered a b))))

join-append :
    (a b : Side)
    → join nul (fields a ++ fields b) ≡ join nul (fields a) ++ (nul ++ join nul (fields b))
unfolding join
join-append a b = simp append_assoc

picked_comm :
    (s t : Text)
    → (if text_lt t s then t ++ (nul ++ s) else s ++ (nul ++ t))
      ≡ (if text_lt s t then s ++ (nul ++ t) else t ++ (nul ++ s))
picked_comm s t = elim (Bool-cases (text_eq s t)) [
  | inl same ↦ rw ((text_eq_iff s t).0 same)
  | inr other ↦ rw (text_lt_total s t other) (ground arith)
]

ordered_comm : (a b : Side) → ordered a b ≡ ordered b a
unfolding ordered
ordered_comm a b =
    rw (join-append b a, join-append a b) (picked_comm (join nul (fields a)) (join nul (fields b)))

-- Both sides of a pairing show the same code, whichever of them is called local.
pub comparison_code_comm :
    (sum : Text → Text) (a b : Side) → comparison_code sum a b ≡ comparison_code sum b a
unfolding comparison_code
comparison_code_comm sum a b = rw (ordered_comm a b)

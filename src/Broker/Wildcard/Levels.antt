-- ===== src/Broker/Wildcard/Levels.antt =====
-- internal/broker/wildcard.go: the byte loop against the levels between slashes.
use aqueduct.Base.Bytes.{bytes_equal→eq, bytes_equal, Bytes}
use aqueduct.Base.{
  length-append, append-nil, inr, sym, inl, Bool-cases, ap, ◌∙◌, arith, false, refl, true, ◌&&◌, [],
  length, ◌≡◌, Bool, ◌++◌, ◌<◌, ◌∷◌, ◌≢◌, All, List, ℕ,
}
use aqueduct.Broker.Wildcard.{
  match_wildcard, hash_sign, slash, plus_sign, match_loop, skip_segment, starts_with_hash,
}

pub data Level : Type 0 where
  name : Bytes → Level
  any : Level

-- A byte of a plain level name.
abbrev pub IsPlain : ℕ → Type 0
IsPlain c = (c ≢ slash) × (c ≢ plus_sign) × (c ≢ hash_sign)

abbrev pub IsLevel : Level → Type 0
IsLevel (name l) = All IsPlain l
IsLevel any = Unit

-- A topic's level: not empty, and without a slash.
abbrev pub IsSegment : Bytes → Type 0
IsSegment t = (0 < length t) × All (λ c. c ≢ slash) t

-- MQTT's rule: a name matches itself, '+' one level, a final '#' any number of levels.
unfoldable pub matches : List Level → Bool → List Bytes → Bool
unfolding bytes_equal
matches [] true ts = true
matches [] false [] = true
matches [] false (t ∷ ts) = false
matches (l ∷ ls) h [] = false
matches (name n ∷ ls) h (t ∷ ts) = bytes_equal n t && matches ls h ts
matches (any ∷ ls) h (t ∷ ts) = matches ls h ts

abbrev pub level_text : Level → Bytes
level_text (name n) = n
level_text any = plus_sign ∷ []

abbrev pub pattern_tail : List Level → Bool → Bytes
pattern_tail [] true = slash ∷ hash_sign ∷ []
pattern_tail [] false = []
pattern_tail (l ∷ ls) h = slash ∷ (level_text l ++ pattern_tail ls h)

-- A filter with at least one level before an optional "/#".
abbrev pub pattern_text : Level → List Level → Bool → Bytes
pattern_text l ls h = level_text l ++ pattern_tail ls h

abbrev pub topic_tail : List Bytes → Bytes
topic_tail [] = []
topic_tail (t ∷ ts) = slash ∷ (t ++ topic_tail ts)

abbrev pub topic_text : Bytes → List Bytes → Bytes
topic_text t ts = t ++ topic_tail ts

-- What follows a level: the end, or a slash.
abbrev Follows : Bytes → Type 0
Follows [] = Unit
Follows (c ∷ cs) = c ≡ slash

pattern_tail-Follows : (ls : List Level) (h : Bool) → Follows (pattern_tail ls h)
pattern_tail-Follows [] true = refl
pattern_tail-Follows [] false = tt
pattern_tail-Follows (l ∷ ls) h = refl

topic_tail-Follows : (ts : List Bytes) → Follows (topic_tail ts)
topic_tail-Follows [] = tt
topic_tail-Follows (t ∷ ts) = refl

skip_segment-append :
    (t rest : Bytes) → All (λ c. c ≢ slash) t → Follows rest → skip_segment (t ++ rest) ≡ rest
unfolding skip_segment
skip_segment-append [] [] h f = refl
skip_segment-append [] (c ∷ cs) h f = ground arith
skip_segment-append (c ∷ t) rest h f = ground (arith, skip_segment-append t rest h.1 f, h.0)

-- A plain name against a segment.
match_loop-name :
    (n t p r : Bytes)
    → All IsPlain n
    → All (λ c. c ≢ slash) t
    → Follows p
    → Follows r
    → match_loop (n ++ p) (t ++ r) ≡ bytes_equal n t && match_loop p r
unfolding match_loop bytes_equal
match_loop-name [] [] p r hn ht fp fr = refl
match_loop-name [] (c ∷ t) [] r hn ht fp fr = refl
match_loop-name [] (c ∷ t) (d ∷ p) r hn ht fp fr = ground (arith, ht.0)
match_loop-name (c ∷ n) [] p [] hn ht fp fr = ground (arith, hn.0)
match_loop-name (c ∷ n) [] p (d ∷ r) hn ht fp fr = ground (arith, hn.0)
match_loop-name (c ∷ n) (d ∷ t) p r hn ht fp fr =
    ground (arith, hn.0, match_loop-name n t p r hn.1 ht.1 fp fr)

match_loop-any :
    (t p r : Bytes) → IsSegment t → Follows r → match_loop (plus_sign ∷ p) (t ++ r) ≡ match_loop p r
unfolding match_loop
match_loop-any [] p r h f = absurd (omega arith)
match_loop-any (c ∷ t) p r h f = rw (skip_segment-append (c ∷ t) r h.1 f)

level_not_hash :
    (l : Level) (ls : List Level) (h : Bool)
    → IsLevel l
    → starts_with_hash (level_text l ++ pattern_tail ls h) ≡ false
unfolding starts_with_hash
level_not_hash (name []) [] true i = refl
level_not_hash (name []) [] false i = refl
level_not_hash (name []) (l ∷ ls) h i = refl
level_not_hash (name (c ∷ n)) ls h i = ground (arith, i.0)
level_not_hash any ls h i = refl

-- One level, given the rest.
match_level :
    (l : Level) (ls : List Level) (h : Bool) (t : Bytes) (ts : List Bytes)
    → IsLevel l
    → IsSegment t
    → match_loop (pattern_tail ls h) (topic_tail ts) ≡ matches ls h ts
    → match_loop (pattern_text l ls h) (topic_text t ts) ≡ matches (l ∷ ls) h (t ∷ ts)
unfolding matches
match_level (name n) ls h t ts hl ht rest =
    match_loop-name n t (pattern_tail ls h) (topic_tail ts) hl ht.1 (pattern_tail-Follows ls h)
      (topic_tail-Follows ts)
    ∙ ap (λ b. bytes_equal n t && b) rest
match_level any ls h t ts hl ht rest =
    match_loop-any t (pattern_tail ls h) (topic_tail ts) ht (topic_tail-Follows ts) ∙ rest

hash_any : (topic : Bytes) → match_loop (hash_sign ∷ []) topic ≡ true
unfolding match_loop
hash_any [] = refl
hash_any (t ∷ ts) = refl

match_tail :
    (ls : List Level) (h : Bool) (ts : List Bytes)
    → All IsLevel ls
    → All IsSegment ts
    → match_loop (pattern_tail ls h) (topic_tail ts) ≡ matches ls h ts
unfolding match_loop matches
match_tail [] true [] hl ht = refl
match_tail [] true (t ∷ ts) hl ht = hash_any (t ++ topic_tail ts)
match_tail [] false [] hl ht = refl
match_tail [] false (t ∷ ts) hl ht = refl
match_tail (l ∷ ls) h [] hl ht = ground (arith, level_not_hash l ls h hl.0)
match_tail (l ∷ ls) h (t ∷ ts) hl ht =
    match_level l ls h t ts hl.0 ht.0 (match_tail ls h ts hl.1 ht.1)

-- A filter matches its own text, so the shortcut for equal bytes adds nothing.
match_loop-self_name : (n p : Bytes) → All IsPlain n → match_loop (n ++ p) (n ++ p) ≡ match_loop p p
unfolding match_loop
match_loop-self_name [] p h = refl
match_loop-self_name (c ∷ n) p h = ground (arith, match_loop-self_name n p h.1, h.0)

match_loop-self_level :
    (l : Level) (p : Bytes)
    → IsLevel l
    → Follows p
    → match_loop (level_text l ++ p) (level_text l ++ p) ≡ match_loop p p
unfolding match_loop
match_loop-self_level (name n) p h f = match_loop-self_name n p h
match_loop-self_level any [] h f = refl
match_loop-self_level any (c ∷ p) h f = ground (arith, f)

match_loop_self :
    (ls : List Level) (h : Bool)
    → All IsLevel ls
    → match_loop (pattern_tail ls h) (pattern_tail ls h) ≡ true
unfolding match_loop
match_loop_self [] true hl = refl
match_loop_self [] false hl = refl
match_loop_self (l ∷ ls) h hl =
    match_loop-self_level l (pattern_tail ls h) hl.0 (pattern_tail-Follows ls h)
    ∙ match_loop_self ls h hl.1

-- MatchWildcard on a filter of levels and a topic of segments decides MQTT's rule.
pub match_wildcard-matches :
    (l : Level) (ls : List Level) (h : Bool) (t : Bytes) (ts : List Bytes)
    → All IsLevel (l ∷ ls)
    → All IsSegment (t ∷ ts)
    → match_wildcard (pattern_text l ls h) (topic_text t ts) ≡ matches (l ∷ ls) h (t ∷ ts)
unfolding match_wildcard
match_wildcard-matches l ls h t ts hl ht =
    elim (Bool-cases (bytes_equal (pattern_text l ls h) (topic_text t ts))) [
      | inl same ↦ rw same (
          sym (
            match_loop-self_level l (pattern_tail ls h) hl.0 (pattern_tail-Follows ls h)
            ∙ match_loop_self ls h hl.1)
          ∙ ap (match_loop (pattern_text l ls h)) (bytes_equal→eq _ _ same)
          ∙ found)
      | inr differs ↦ rw differs found
    ]
  where
    found : match_loop (pattern_text l ls h) (topic_text t ts) ≡ matches (l ∷ ls) h (t ∷ ts)
    found = match_level l ls h t ts hl.0 ht.0 (match_tail ls h ts hl.1 ht.1)

plain_slash : (n : Bytes) → All IsPlain n → All (λ c. c ≢ slash) n
plain_slash [] h = tt
plain_slash (c ∷ n) h = (h.0.0, plain_slash n h.1)

length-ne : (xs ys : Bytes) → length xs ≢ length ys → bytes_equal xs ys ≡ false
unfolding bytes_equal
length-ne [] [] h = absurd (h refl)
length-ne [] (y ∷ ys) h = refl
length-ne (x ∷ xs) [] h = refl
length-ne (x ∷ xs) (y ∷ ys) h = ground (arith, length-ne xs ys)

-- '+' takes an empty first level and refuses an empty last one: for every plain name n, "+/n"
-- matches "/n" and "n/+" does not match "n/".
pub match_wildcard-empty_levels :
    (n : Bytes)
    → All IsPlain n
    → (match_wildcard (plus_sign ∷ slash ∷ n) (slash ∷ n) ≡ true)
      × (match_wildcard (n ++ (slash ∷ plus_sign ∷ [])) (n ++ (slash ∷ [])) ≡ false)
unfolding match_wildcard match_loop
match_wildcard-empty_levels n h = (first, last)
  where
    self : match_loop n n ≡ true
    self = rw append-nil at (match_loop-self_name n [] h)

    first : match_wildcard (plus_sign ∷ slash ∷ n) (slash ∷ n) ≡ true
    first = ground (arith, self)

    same_name : match_loop (n ++ (slash ∷ plus_sign ∷ [])) (n ++ (slash ∷ [])) ≡ false
    same_name = ground (
      arith,
      match_loop-name n n (slash ∷ plus_sign ∷ []) (slash ∷ []) h (plain_slash n h) refl refl,
    )

    last : match_wildcard (n ++ (slash ∷ plus_sign ∷ [])) (n ++ (slash ∷ [])) ≡ false
    last =
        rw
          (length-ne (n ++ (slash ∷ plus_sign ∷ [])) (n ++ (slash ∷ []))
            (omega (arith, length-append n (slash ∷ plus_sign ∷ []), length-append n (slash ∷ []))))
          same_name

-- ===== src/Html/Rewriting/Lists.antt =====
-- The handlers on lists of attributes: what they put in, keep and take out.
use aerogram.Prelude.{
  map_some, ◌≡◌, refl, sym, ap, ◌∙◌, ◌≢◌, inl, inr, Bool, true, false, Option, none, some, List, [],
  ◌∷◌, if◌then◌else◌, Bool-cases, Option-cases, All, Text, codes, text_eq, text_eq_refl,
  text_eq_sound,
}
use aerogram.Html.Link.{clean_link}
use aerogram.Html.Link.Stripping.{clean_link-idempotent}
use aerogram.Html.Elements.{has_name, is_bad}
use aerogram.Html.Elements.Links.{cleaned}
use aerogram.Html.Elements.Attributes.{
  without_all, named, left_over, All-named, named_none, without_none,
}
use aerogram.Html.Rewriting.Addresses.{is_bad-clean_link}
use aerogram.Html.Rewriting.Effects.{find_attr, put_attr, strip_attrs, clean_attrs, link_attrs}

abbrev pub IsClean : List (Text × Text) → Type 0
IsClean as' = All (λ a. is_bad a ≡ false) as'

pub IsClean-strip_attrs : (as' : List (Text × Text)) → IsClean (strip_attrs as')
unfolding strip_attrs
IsClean-strip_attrs as' = left_over is_bad (named is_bad as') as' (All-named is_bad as')

pub strip_attrs_clean : (as' : List (Text × Text)) → IsClean as' → strip_attrs as' ≡ as'
unfolding strip_attrs
strip_attrs_clean as' good = rw (named_none is_bad as' good) (without_none as')

pub IsClean-put_attr :
    (n v : Text) (as' : List (Text × Text))
    → is_bad (n, v) ≡ false
    → IsClean as'
    → IsClean (put_attr n v as')
IsClean-put_attr n v [] fine good = (fine, tt)
IsClean-put_attr n v ((m, w) ∷ as') fine (ha, good) = elim (Bool-cases (text_eq m n)) [
  | inl same ↦ rw same (rw (text_eq_sound m n same) fine, good)
  | inr other ↦ rw other (ha, IsClean-put_attr n v as' fine good)
]

pub find_attr-put_self :
    (n v : Text) (as' : List (Text × Text)) → find_attr n (put_attr n v as') ≡ some v
find_attr-put_self n v [] = rw (text_eq_refl n) refl
find_attr-put_self n v ((m, w) ∷ as') = elim (Bool-cases (text_eq m n)) [
  | inl same ↦ rw same (rw same refl)
  | inr other ↦ rw other (rw other (find_attr-put_self n v as'))
]

pub find_attr-put_other :
    (n k v : Text) (as' : List (Text × Text))
    → text_eq n k ≡ false
    → find_attr k (put_attr n v as') ≡ find_attr k as'
find_attr-put_other n k v [] differs = rw differs refl
find_attr-put_other n k v ((m, w) ∷ as') differs = elim (Bool-cases (text_eq m n)) [
  | inl same ↦ rw same (rw (text_eq_sound m n same) (rw differs refl))
  | inr other ↦ rw other (
      ap (λ (r : Option Text). if text_eq m k then some w else r)
        (find_attr-put_other n k v as' differs))
]

-- A test that tells two names apart.
differ :
    (P : Text → Bool) (n k : Text)
    → P n ≡ true
    → P k ≡ false
    → (text_eq n k ≡ false) × (text_eq k n ≡ false)
differ P n k yes_n no_k = (apart n k (λ e. cc (ap P e)), apart k n (λ e. cc (ap P e)))
  where
    apart : (a b : Text) → a ≢ b → text_eq a b ≡ false
    apart a b h = elim (Bool-cases (text_eq a b)) [
      | inl same ↦ absurd (h (text_eq_sound a b same))
      | inr other ↦ other
    ]

-- An attribute that is not taken out is found as before.
find_attr-without_all :
    (k : Text) (ns : List Text) (as' : List (Text × Text))
    → has_name ns k ≡ false
    → find_attr k (without_all ns as') ≡ find_attr k as'
find_attr-without_all k ns [] stays = refl
find_attr-without_all k ns ((m, w) ∷ as') stays = elim (Bool-cases (has_name ns m)) [
  | inl gone ↦
      rw (gone, (differ (has_name ns) m k gone stays).0) (find_attr-without_all k ns as' stays)
  | inr kept ↦ rw kept (
      ap (λ (r : Option Text). if text_eq m k then some w else r)
        (find_attr-without_all k ns as' stays))
]

-- The filter never takes an attribute by such a name.
abbrev pub IsSafeName : Text → Type 0
IsSafeName k = (v : Text) → is_bad (k, v) ≡ false

has_name-named :
    (bad : Text × Text → Bool) (k : Text) (as' : List (Text × Text))
    → ((v : Text) → bad (k, v) ≡ false)
    → has_name (named bad as') k ≡ false
unfolding named
has_name-named bad k [] safe = refl
has_name-named bad k ((m, w) ∷ as') safe = elim (Bool-cases (bad (m, w))) [
  | inl taken ↦
      rw (taken, (differ (λ n. bad (n, w)) m k taken (safe w)).1) (has_name-named bad k as' safe)
  | inr fine ↦ rw fine (has_name-named bad k as' safe)
]

-- A test on names that leaves an attribute alone.
pub find_attr-without_named :
    (bad : Text × Text → Bool) (k : Text) (as' : List (Text × Text))
    → ((v : Text) → bad (k, v) ≡ false)
    → find_attr k (without_all (named bad as') as') ≡ find_attr k as'
find_attr-without_named bad k as' safe =
    find_attr-without_all k (named bad as') as' (has_name-named bad k as' safe)

-- A name that no attribute may have is not found.
pub find_attr_absent :
    (names : List Text) (k : Text) (as' : List (Text × Text))
    → All (λ a. has_name names a.0 ≡ true) as'
    → has_name names k ≡ false
    → find_attr k as' ≡ none
find_attr_absent names k [] h absent = refl
find_attr_absent names k ((m, w) ∷ as') (hm, h) absent =
    rw ((differ (has_name names) m k hm absent).0) (find_attr_absent names k as' h absent)

pub find_attr-strip_attrs :
    (k : Text) (as' : List (Text × Text))
    → IsSafeName k
    → find_attr k (strip_attrs as') ≡ find_attr k as'
unfolding strip_attrs
find_attr-strip_attrs k as' safe = find_attr-without_named is_bad k as' safe

-- A found attribute of a clean list is fine.
found_fine :
    (n v : Text) (as' : List (Text × Text))
    → find_attr n as' ≡ some v
    → IsClean as'
    → is_bad (n, v) ≡ false
found_fine n v [] is good = cc
found_fine n v ((m, w) ∷ as') is (ha, good) = elim (Bool-cases (text_eq m n)) [
  | inl same ↦ cc (ha, text_eq_sound m n same, (rw same at is))
  | inr other ↦ found_fine n v as' (rw other at is) good
]

pub IsClean-clean_attrs : (as' : List (Text × Text)) → IsClean as' → IsClean (clean_attrs as')
unfolding clean_attrs
IsClean-clean_attrs as' good = elim (Option-cases (find_attr (codes "href") as')) [
  | inl missing ↦ rw (clean_attrs, missing) good
  | inr (href, is) ↦ elim (Option-cases (clean_link href)) [
    | inl fine ↦ rw (clean_attrs, is, fine) good
    | inr (c, dirty) ↦
        rw (clean_attrs, is, dirty)
          (IsClean-put_attr (codes "href") c as'
            (is_bad-clean_link href c dirty ∙ found_fine (codes "href") href as' is good) good)
  ]
]

pub IsClean-link_attrs : (as' : List (Text × Text)) → IsClean as' → IsClean (link_attrs as')
unfolding link_attrs is_bad
IsClean-link_attrs as' good =
    IsClean-clean_attrs _ (IsClean-put_attr _ _ _ refl (IsClean-put_attr _ _ as' refl good))

find_attr-clean_self :
    (as' : List (Text × Text))
    → find_attr (codes "href") (clean_attrs as') ≡ map_some cleaned (find_attr (codes "href") as')
unfolding clean_attrs
find_attr-clean_self as' = elim (Option-cases (find_attr (codes "href") as')) [
  | inl missing ↦ rw (clean_attrs, missing) (rw missing refl)
  | inr (href, is) ↦ elim (Option-cases (clean_link href)) [
    | inl fine ↦ rw (clean_attrs, is, fine) is
    | inr (c, dirty) ↦ rw (clean_attrs, is, dirty) (find_attr-put_self (codes "href") c as')
  ]
]

find_attr-clean_other :
    (k : Text) (as' : List (Text × Text))
    → text_eq (codes "href") k ≡ false
    → find_attr k (clean_attrs as') ≡ find_attr k as'
unfolding clean_attrs
find_attr-clean_other k as' other = elim (Option-cases (find_attr (codes "href") as')) [
  | inl missing ↦ rw (clean_attrs, missing) refl
  | inr (href, is) ↦ elim (Option-cases (clean_link href)) [
    | inl fine ↦ rw (clean_attrs, is, fine) refl
    | inr (c, dirty) ↦
        rw (clean_attrs, is, dirty) (find_attr-put_other (codes "href") k c as' other)
  ]
]

-- What a link's handler makes of the value by a name.
abbrev pub link_attr : Text → Option Text → Option Text
link_attr k old =
    if text_eq (codes "rel") k
    then some (codes "noreferrer noopener")
    else if text_eq (codes "target") k
    then some (codes "_blank")
    else if text_eq (codes "href") k
    then map_some cleaned old
    else old

pub link_attr-idempotent :
    (k : Text) (old : Option Text) → link_attr k (link_attr k old) ≡ link_attr k old
link_attr-idempotent k old = elim (Bool-cases (text_eq (codes "rel") k)) [
  | inl rel ↦ rw rel refl
  | inr no_rel ↦ elim (Bool-cases (text_eq (codes "target") k)) [
    | inl target ↦ rw (no_rel, target) refl
    | inr no_target ↦ elim (Bool-cases (text_eq (codes "href") k)) [
      | inl href ↦ rw (no_rel, no_target, href) (twice old)
      | inr no_href ↦ rw (no_rel, no_target, no_href) refl
    ]
  ]
]
  where
    twice : (o : Option Text) → map_some cleaned (map_some cleaned o) ≡ map_some cleaned o
    twice none = refl
    twice (some href) = elim (Option-cases (clean_link href)) [
      | inl fine ↦ rw fine (rw fine refl)
      | inr (c, dirty) ↦ rw dirty (rw (clean_link-idempotent href c dirty) refl)
    ]

pub find_attr-link_attrs :
    (k : Text) (as' : List (Text × Text))
    → find_attr k (link_attrs as') ≡ link_attr k (find_attr k as')
unfolding link_attrs
find_attr-link_attrs k as' =
    let e₁ = put_attr (codes "rel") (codes "noreferrer noopener") as' in
    let e₂ = put_attr (codes "target") (codes "_blank") e₁ in
    elim (Bool-cases (text_eq (codes "rel") k)) [
      | inl rel ↦ rw rel (
          rw (sym (text_eq_sound (codes "rel") k rel)) (
            find_attr-clean_other (codes "rel") e₂ refl
            ∙ find_attr-put_other (codes "target") (codes "rel") (codes "_blank") e₁ refl
            ∙ find_attr-put_self (codes "rel") _ as'))
      | inr no_rel ↦ elim (Bool-cases (text_eq (codes "target") k)) [
        | inl target ↦
            rw (no_rel, target)
              (rw (sym (text_eq_sound (codes "target") k target)) (
                find_attr-clean_other (codes "target") e₂ refl
                ∙ find_attr-put_self (codes "target") (codes "_blank") e₁))
        | inr no_target ↦
            let same =
              find_attr-put_other (codes "target") k (codes "_blank") e₁ no_target
              ∙ find_attr-put_other (codes "rel") k _ as' no_rel in
            elim (Bool-cases (text_eq (codes "href") k)) [
              | inl href ↦
                  rw (no_rel, no_target, href)
                    (rw (sym (text_eq_sound (codes "href") k href)) (
                      find_attr-clean_self e₂
                      ∙ ap (map_some cleaned) (
                          find_attr-put_other (codes "target") (codes "href") (codes "_blank") e₁
                            refl
                          ∙ find_attr-put_other (codes "rel") (codes "href") _ as' refl)))
              | inr no_href ↦
                  rw (no_rel, no_target, no_href) (find_attr-clean_other k e₂ no_href ∙ same)
            ]
      ]
    ]

-- ===== src/Garlic/Tags.antt =====
-- core/Garlic.cpp: which tags a session uses, keeps and forgets.
use i2pd.Prelude.{
  ℕ, ◌+◌, ◌^◌, ◌≤◌, ◌<◌, ◌≡◌, refl, ap, ◌∙◌, true, false, List, [], ◌∷◌, ◌++◌, Option, none, some,
  ltb, ◌==◌, if◌then◌else◌, arith, All, Bool-cases, inl, inr, ltb-false, leb_lt, ==_refl,
}
use i2pd.Prelude.Assoc.{lookup, lookup-erase}
use i2pd.Prelude.Dict.{Dict, find}
use i2pd.Garlic.{SessionTag, UnconfirmedTags, RoutingSession, add32}
use i2pd.Garlic.Session.{is_expired, keep_tags, confirm, tags_confirmed}
use i2pd.Garlic.Wrap.{take_tag}
use i2pd.Garlic.Incoming.{keep_incoming}

abbrev pub HasExpired : ℕ → SessionTag → Type 0
HasExpired now t = is_expired now t.creation_time ≡ true

-- What `find_tag` may come to: the tags up to the first that is not expired are given up.
abbrev pub IsFirstFresh : ℕ → List SessionTag → Option SessionTag × List SessionTag → Type 0
IsFirstFresh now ts (none, rest) = All (HasExpired now) ts × (rest ≡ [])
IsFirstFresh now ts (some t, rest) =
    (expired : List SessionTag) × All (HasExpired now) expired
    × (ts ≡ expired ++ (t ∷ rest))
    × (is_expired now t.creation_time ≡ false)

-- A message takes the first tag that is not expired: the expired ones before it are dropped, and those behind it
-- stay for later messages, so a tag is taken once.
pub take_tag-IsFirstFresh : (now : ℕ) (ts : List SessionTag) → IsFirstFresh now ts (take_tag now ts)
unfolding take_tag
take_tag-IsFirstFresh now [] = (tt, refl)
take_tag-IsFirstFresh now (t ∷ ts) = elim (Bool-cases (is_expired now t.creation_time)) [
  | inl e ↦ rw e (later (take_tag now ts) e (take_tag-IsFirstFresh now ts))
  | inr e ↦ rw e ([], tt, refl, e)
]
  where
    later :
        (found : Option SessionTag × List SessionTag)
        → HasExpired now t
        → IsFirstFresh now ts found
        → IsFirstFresh now (t ∷ ts) found
    later (none, rest) e (all, nothing) = ((e, all), nothing)
    later (some first, rest) e (expired, all, split, fresh) =
        (t ∷ expired, (e, all), ap (◌∷◌ t) split, fresh)

confirm-tags :
    (id now : ℕ) (tags : UnconfirmedTags) (s : RoutingSession)
    → is_expired now tags.tags_creation_time ≡ false
    → (confirm id now (some tags) s).session_tags ≡ s.session_tags ++ tags.session_tags
unfolding confirm
confirm-tags id now tags s fresh = rw fresh refl

-- A delivery status that comes in time adds the tags of its message behind those of the session, and no other
-- message is forgotten.
pub tags_confirmed-adds :
    (id now : ℕ) (tags : UnconfirmedTags) (s : RoutingSession)
    → lookup id s.unconfirmed_tags_msgs ≡ some tags
    → is_expired now tags.tags_creation_time ≡ false
    → let after = tags_confirmed id now s in
      (after.session_tags ≡ s.session_tags ++ tags.session_tags)
      × ((other : ℕ)
          → lookup other after.unconfirmed_tags_msgs
            ≡ (if id == other then none else lookup other s.unconfirmed_tags_msgs))
unfolding tags_confirmed
tags_confirmed-adds id now tags s waiting fresh = (
  ap (λ (o : Option UnconfirmedTags). (confirm id now o s).session_tags) waiting
      ∙ confirm-tags id now tags s fresh,
  λ other.
      ap (λ (o : Option UnconfirmedTags). lookup other (confirm id now o s).unconfirmed_tags_msgs)
        waiting
      ∙ unfold confirm in lookup-erase id other s.unconfirmed_tags_msgs,
)

confirm-none :
    (id now : ℕ) (o : Option UnconfirmedTags) (s : RoutingSession)
    → lookup id s.unconfirmed_tags_msgs ≡ o
    → lookup id (confirm id now o s).unconfirmed_tags_msgs ≡ none
unfolding confirm
confirm-none id now none s e = e
confirm-none id now (some tags) s e =
    lookup-erase id id s.unconfirmed_tags_msgs ∙ rw (==_refl id) refl

-- A second delivery status of the same message changes nothing: tags are added once.
pub tags_confirmed-twice :
    (id now later : ℕ) (s : RoutingSession)
    → tags_confirmed id later (tags_confirmed id now s) ≡ tags_confirmed id now s
unfolding tags_confirmed
tags_confirmed-twice id now later s =
    let after = confirm id now (lookup id s.unconfirmed_tags_msgs) s in
    ap (λ (o : Option UnconfirmedTags). confirm id later o after)
      (confirm-none id now (lookup id s.unconfirmed_tags_msgs) s refl)
    ∙ unfold confirm in refl

-- Tags none of which is expired.
abbrev AllFresh : ℕ → List SessionTag → Type 0
AllFresh now ts = All (λ t. is_expired now t.creation_time ≡ false) ts

keep_tags-AllFresh : (now : ℕ) (ts : List SessionTag) → AllFresh now (keep_tags now ts)
unfolding keep_tags
keep_tags-AllFresh now [] = tt
keep_tags-AllFresh now (t ∷ ts) = elim (Bool-cases (is_expired now t.creation_time)) [
  | inl e ↦ rw e (keep_tags-AllFresh now ts)
  | inr e ↦ rw e (e, keep_tags-AllFresh now ts)
]

-- An incoming tag that is not older than its time stays.
find-keep_incoming :
    (now since : ℕ) (key tag : List ℕ) (all : Dict (ℕ × List ℕ))
    → find tag all ≡ some (since, key)
    → ltb (add32 since 960) now ≡ false
    → find tag (keep_incoming now all) ≡ some (since, key)
unfolding find keep_incoming
find-keep_incoming now since key tag [] e fresh = e
find-keep_incoming now since key tag ((other, (then_, held)) ∷ rest) e fresh =
    ground (arith, find-keep_incoming now since key tag rest)

-- A tag that a session may still send under at a time is still known to a destination that has had it since it
-- was made or later, if the message takes at most four minutes: both ends count in seconds below 2 ^ 32.
pub find-keep_incoming_fresh :
    (sent arrived created since : ℕ) (key tag : List ℕ) (all : Dict (ℕ × List ℕ))
    → is_expired sent created ≡ false
    → created ≤ since
    → since + 960 < 2 ^ 32
    → arrived ≤ sent + 240
    → find tag all ≡ some (since, key)
    → find tag (keep_incoming arrived all) ≡ some (since, key)
unfolding is_expired
find-keep_incoming_fresh sent arrived created since key tag all fresh later small soon known =
    let inside = leb_lt (add32 created 720) sent fresh in
    find-keep_incoming arrived since key tag all known
      (ltb-false (add32 since 960) arrived (omega (arith, inside)))

-- ===== src/Garlic/Known.antt =====
-- core/Garlic.cpp: whatever tags a session has confirmed, its destination knows.
use mathlib.Core.Path.{subst}
use i2pd.Prelude.{
  ◌⊎◌, ℕ, zero, suc, ◌≡◌, refl, sym, ◌∙◌, Bool, true, false, List, [], ◌∷◌, ◌++◌, some, arith,
  length, take, drop, All, Bool-cases, inl, inr, take-append_left, drop-append_left, ==_refl,
}
use i2pd.Prelude.Assoc.{lookup, lookup-insert}
use i2pd.Prelude.Bytes.{same_bytes, same_bytes_refl}
use i2pd.Prelude.Dict.{Dict, find, remove, find-put, find-remove}
use i2pd.Garlic.{SessionTag, UnconfirmedTags, RoutingSession}
use i2pd.Garlic.Receive.{put_tag, put_tags, first_time}
use i2pd.Garlic.Wrap.{OwnerCall, bytes_of, attach_status, attach_lease_set, register_tags}
use i2pd.Garlic.Cloves.{Clove}
use i2pd.Garlic.Blocks.{AreTags}
use i2pd.Garlic.Payload.{attached}

-- A tag under which a key is known.
abbrev pub IsKnown : List ℕ → Dict (ℕ × List ℕ) → SessionTag → Type 0
IsKnown key all t = (since : ℕ) × (find t.tag all ≡ some (since, key))

abbrev pub AllKnown : List ℕ → List SessionTag → Dict (ℕ × List ℕ) → Type 0
AllKnown key ts all = All (IsKnown key all) ts

-- Tags other than a given one.
abbrev pub AreOther : List ℕ → List SessionTag → Type 0
AreOther tag ts = All (λ t. same_bytes tag t.tag ≡ false) ts

put_tag-IsKnown :
    (now : ℕ) (key tag : List ℕ) (all : Dict (ℕ × List ℕ)) (t : SessionTag)
    → (same_bytes tag t.tag ≡ true) ⊎ IsKnown key all t
    → IsKnown key (put_tag now key tag all) t
unfolding put_tag
put_tag-IsKnown now key tag all t h =
    let found = find-put tag t.tag (first_time now (find tag all), key) all in
    elim (Bool-cases (same_bytes tag t.tag)) [
      | inl same ↦ (first_time now (find tag all), found ∙ rw same refl)
      | inr other ↦ elim h [
        | inl same ↦ absurd (ground arith)
        | inr (since, known) ↦ (since, found ∙ rw (other, known) refl)
      ]
    ]

put_tags-IsKnown :
    (now : ℕ) (key : List ℕ) (n : ℕ) (bytes : List ℕ) (all : Dict (ℕ × List ℕ)) (t : SessionTag)
    → IsKnown key all t
    → IsKnown key (put_tags now key n bytes all) t
unfolding put_tags
put_tags-IsKnown now key zero bytes all t h = h
put_tags-IsKnown now key (suc n) bytes all t h =
    put_tags-IsKnown now key n (drop 32 bytes) (put_tag now key (take 32 bytes) all) t
      (put_tag-IsKnown now key (take 32 bytes) all t (inr h))

put_tags-step :
    (now : ℕ) (key tag : List ℕ) (n : ℕ) (rest : List ℕ) (all : Dict (ℕ × List ℕ))
    → length tag ≡ 32
    → put_tags now key (suc n) (tag ++ rest) all ≡ put_tags now key n rest (put_tag now key tag all)
unfolding put_tags
put_tags-step now key tag n rest all h =
    rw (take-append_left 32 tag rest h, drop-append_left 32 tag rest h) refl

-- All the tags of a message are known under its key once they are put.
pub put_tags-AllKnown :
    (now : ℕ) (key : List ℕ) (ts : List SessionTag) (all : Dict (ℕ × List ℕ))
    → AreTags ts
    → AllKnown key ts (put_tags now key (length ts) (bytes_of ts) all)
put_tags-AllKnown now key [] all h = tt
put_tags-AllKnown now key (t ∷ ts) all (h, hs) =
    subst (AllKnown key (t ∷ ts))
      (sym (put_tags-step now key t.tag (length ts) (bytes_of ts) all h))
      (
        put_tags-IsKnown now key (length ts) (bytes_of ts) (put_tag now key t.tag all) t
            (put_tag-IsKnown now key t.tag all t (inl (same_bytes_refl t.tag))),
        put_tags-AllKnown now key ts (put_tag now key t.tag all) hs,
      )

pub put_tags-keeps :
    (now : ℕ) (key : List ℕ) (n : ℕ) (bytes : List ℕ) (all : Dict (ℕ × List ℕ))
    (ts : List SessionTag)
    → AllKnown key ts all
    → AllKnown key ts (put_tags now key n bytes all)
put_tags-keeps now key n bytes all [] h = tt
put_tags-keeps now key n bytes all (t ∷ ts) (h, hs) =
    (put_tags-IsKnown now key n bytes all t h, put_tags-keeps now key n bytes all ts hs)

pub AllKnown-append :
    (key : List ℕ) (xs ys : List SessionTag) (all : Dict (ℕ × List ℕ))
    → AllKnown key xs all
    → AllKnown key ys all
    → AllKnown key (xs ++ ys) all
AllKnown-append key [] ys all h k = k
AllKnown-append key (x ∷ xs) ys all (h, hs) k = (h, AllKnown-append key xs ys all hs k)

pub AllKnown-remove :
    (key tag : List ℕ) (ts : List SessionTag) (all : Dict (ℕ × List ℕ))
    → AreOther tag ts
    → AllKnown key ts all
    → AllKnown key ts (remove tag all)
AllKnown-remove key tag [] all o h = tt
AllKnown-remove key tag (t ∷ ts) all (o, os) ((since, h), hs) =
    ((since, find-remove tag t.tag all o ∙ h), AllKnown-remove key tag ts all os hs)

-- A session that confirms its new tags has them under the message's id, and no other tags than before.
pub attached-registers :
    (id now : ℕ) (tags : UnconfirmedTags) (status : Clove × List OwnerCall) (store : Clove)
    (updates : Bool) (s : RoutingSession)
    → let after = (attached id now (some tags) (some status) store true updates s).session in
      (lookup id after.unconfirmed_tags_msgs ≡ some tags) × (after.session_tags ≡ s.session_tags)
unfolding attach_status attach_lease_set register_tags
attached-registers id now tags status store false s =
    (lookup-insert id id tags s.unconfirmed_tags_msgs ∙ rw (==_refl id) refl, refl)
attached-registers id now tags status store true s =
    (lookup-insert id id tags s.unconfirmed_tags_msgs ∙ rw (==_refl id) refl, refl)

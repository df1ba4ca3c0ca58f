-- ===== src/Ipp/Synthesize/Items.antt =====
-- Fields written behind the items of a message.
use espresso.Prelude.{
  ◌≡◌, refl, ap, arith, Bool, true, false, List, [], ◌∷◌, ◌++◌, All, Bytes, append_assoc,
}
use espresso.Ipp.Synthesize.{Field}
use espresso.Ipp.Synthesize.Message.{
  field_items, field_items-IsMessage, IsShort, well_named, has, own_name,
}
use espresso.Ipp.Synthesize.WellNamed.{well_named-front}
use espresso.Ipp.Walk.{is_empty}
use espresso.Ipp.Walk.Parse.{Item, group, value}
use espresso.Ipp.Walk.Format.{encode, IsMessage}

pub encode-append : (xs ys : List Item) → encode (xs ++ ys) ≡ encode xs ++ encode ys
encode-append [] ys = refl
encode-append (x ∷ xs) ys = rw (encode-append xs ys, append_assoc) refl

pub rearrange : (w x y z : Bytes) → ((w ++ x) ++ y) ++ z ≡ w ++ ((x ++ y) ++ z)
rearrange w x y z = rw (append_assoc w x y, append_assoc w (x ++ y) z) refl

pub IsMessage-append :
    (xs ys : List Item) (current : Bytes)
    → ((c : Bytes) → IsMessage c ys)
    → IsMessage current xs
    → IsMessage current (xs ++ ys)
IsMessage-append [] ys current k m = k current
IsMessage-append (group g ∷ xs) ys current k (small, ne, m) =
    (small, ne, IsMessage-append xs ys [] k m)
IsMessage-append (value a ∷ xs) ys current k (v, m) = (v, IsMessage-append xs ys a.name k m)

own_name-named :
    (current name : Bytes) → is_empty name ≡ false → own_name current name ≡ own_name [] name
own_name-named current [] h = cc
own_name-named current (c ∷ cs) h = refl

-- Fields that begin with a name mean the same behind any attribute.
field_items-named :
    (current : Bytes) (fs : List Field)
    → well_named false fs ≡ true
    → field_items current fs ≡ field_items [] fs
unfolding well_named
field_items-named current [] h = refl
field_items-named current (f ∷ fs) h =
    ap
      (λ (n : Bytes).
        value (record { tag = f.tag; name_field = f.name; name = n; value = f.value })
        ∷ field_items n fs)
      (own_name-named current f.name (ground arith))

well_named-any : (b : Bool) (fs : List Field) → well_named false fs ≡ true → well_named b fs ≡ true
well_named-any true fs h = well_named-front false fs h
well_named-any false fs h = h

pub field_items-started :
    (fs : List Field)
    → well_named false fs ≡ true
    → All IsShort fs
    → (c : Bytes) → IsMessage c (field_items [] fs)
field_items-started fs h short c =
    rw (← field_items-named c fs h) (field_items-IsMessage c fs (well_named-any (has c) fs h) short)

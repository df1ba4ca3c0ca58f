-- ===== src/Ipp/Inspect/Order.antt =====
-- The order of the operation attributes that `ipp_codec_inspect_request` demands.
use espresso.Prelude.{
  ℕ, ◌+◌, ◌≤◌, ◌<◌, ◌≡◌, refl, sym, ap, ◌∙◌, arith, Bool, true, false, not, ◌&&◌, ◌||◌, List, [],
  ◌∷◌, length, drop, ltb, ◌==◌, if◌then◌else◌, Bytes, Bool-cases, inl, inr,
}
use espresso.Ipp.{Code, ok}
use espresso.Ipp.Inspect.{
  RequestInfo, Inspecting, is_charset, is_language, misplaced, inspect_group, check_order, pick,
  inspect_attribute, inspector, initial_info, start, inspect_end, inspect_result, inspect_request,
}
use espresso.Ipp.Rewrite.{header_length}
use espresso.Ipp.Select.{tag_operation}
use espresso.Ipp.Walk.{Attribute, Outcome, ended, broken, exhausted, left, walk_all}
use espresso.Ipp.Walk.Parse.{
  Item, group, value, Ending, document, bad, cut, parse_all, run, walk-run,
}

-- RFC 8011: no second operation group, and none of the two leading attributes again within it.
unfoldable pub tail_ordered : Bool → List Item → Bool
tail_ordered operation [] = true
tail_ordered operation (group g ∷ items) = not (g == tag_operation) && tail_ordered false items
tail_ordered operation (value a ∷ items) =
    not (operation && (is_charset a || is_language a)) && tail_ordered operation items

-- The operation group begins with charset and language.
unfoldable pub leading : List Item → Bool
leading (value c ∷ value l ∷ items) = is_charset c && is_language l && tail_ordered true items
leading _ = false

-- The first group is the operation group. Attributes in front of the first group are passed over.
unfoldable pub ordered : List Item → Bool
ordered [] = false
ordered (value a ∷ items) = ordered items
ordered (group g ∷ items) = g == tag_operation && leading items

-- The state after the items, and the flag that is then reported.
abbrev after : Inspecting → List Item → Inspecting
after s [] = s
after s (group g ∷ items) = after (inspect_group s g) items
after s (value a ∷ items) = after (inspect_attribute s a) items

pick-valid :
    (b : Bool) (a : Attribute) (info : RequestInfo)
    → (pick b a info).operation_attributes_valid ≡ info.operation_attributes_valid
unfolding pick
pick-valid b a info = ground arith

run-after :
    (items : List Item) (s : Inspecting) (e : Ending) (t : Inspecting) (d : Bytes)
    → run inspector s items e ≡ ended t d
    → (t ≡ after s items) × (e ≡ document d)
unfolding run
run-after [] s (document x) t d e = (ground arith, ground arith)
run-after [] s (bad c) t d e = cc
run-after [] s cut t d e = cc
run-after (group g ∷ items) s x t d e = run-after items (inspect_group s g) x t d e
run-after (value a ∷ items) s x t d e = run-after items (inspect_attribute s a) x t d e

-- What the order of the attributes depends on.
record Order : Type 0 where
  valid : Bool
  operation : Bool
  index : ℕ
  saw_group : Bool
  saw_operation : Bool

abbrev view : Inspecting → Order
view s = record {
  valid = s.info.operation_attributes_valid;
  operation = s.current_group == tag_operation;
  index = s.index;
  saw_group = s.saw_group;
  saw_operation = s.saw_operation_group;
}

abbrev order_item : Order → Item → Order
order_item o (group g) = record {
  valid =
      not (g == tag_operation && o.saw_operation)
      && (not (not o.saw_group && not (g == tag_operation)) && o.valid);
  operation = g == tag_operation;
  index = o.index;
  saw_group = true;
  saw_operation = g == tag_operation || o.saw_operation;
}
order_item o (value a) =
    if o.operation
    then record o { valid = not (misplaced o.index a) && o.valid; index = o.index + 1 }
    else o

abbrev order : Order → List Item → Order
order o [] = o
order o (i ∷ items) = order (order_item o i) items

abbrev verdict : Order → Bool
verdict o = not (not o.saw_operation || ltb o.index 2) && o.valid

view-group : (s : Inspecting) (g : ℕ) → view (inspect_group s g) ≡ order_item (view s) (group g)
unfolding inspect_group
view-group s g = refl

view-check_order :
    (s : Inspecting) (a : Attribute) → view (check_order s a) ≡ order_item (view s) (value a)
unfolding check_order
view-check_order s a = elim (Bool-cases (s.current_group == tag_operation)) [
  | inl e ↦ rw (e, e) refl
  | inr e ↦ rw (e, e) refl
]

view-attribute :
    (s : Inspecting) (a : Attribute) → view (inspect_attribute s a) ≡ order_item (view s) (value a)
unfolding inspect_attribute
view-attribute s a =
    let t = check_order s a in
    ap
      (λ (b : Bool). record {
        valid = b;
        operation = t.current_group == tag_operation;
        index = t.index;
        saw_group = t.saw_group;
        saw_operation = t.saw_operation_group;
      })
      (pick-valid (t.current_group == tag_operation) a t.info)
    ∙ view-check_order s a

view-after : (items : List Item) (s : Inspecting) → view (after s items) ≡ order (view s) items
view-after [] s = refl
view-after (group g ∷ items) s =
    view-after items (inspect_group s g) ∙ ap (λ (o : Order). order o items) (view-group s g)
view-after (value a ∷ items) s =
    view-after items (inspect_attribute s a)
    ∙ ap (λ (o : Order). order o items) (view-attribute s a)

verdict_invalid :
    (items : List Item) (o : Order) → o.valid ≡ false → verdict (order o items) ≡ false
verdict_invalid [] o h = ground arith
verdict_invalid (group g ∷ items) o h =
    verdict_invalid items (order_item o (group g)) (ground arith)
verdict_invalid (value a ∷ items) o h =
    verdict_invalid items (order_item o (value a)) (ground arith)

-- The operation group was left before its second attribute.
verdict_short :
    (items : List Item) (o : Order)
    → o.saw_operation ≡ true
    → o.operation ≡ false
    → o.index < 2
    → verdict (order o items) ≡ false
verdict_short [] o s p h = ground arith
verdict_short (group g ∷ items) o s p h = elim (Bool-cases (g == tag_operation)) [
  | inl again ↦ verdict_invalid items (order_item o (group g)) (ground arith)
  | inr other ↦ verdict_short items (order_item o (group g)) (ground arith) other h
]
verdict_short (value a ∷ items) o s p h =
    verdict_short items (order_item o (value a)) (ground arith) (ground arith) (ground arith)

-- Both leading attributes were seen.
verdict_tail :
    (items : List Item) (o : Order)
    → o.saw_group ≡ true
    → o.saw_operation ≡ true
    → 2 ≤ o.index
    → verdict (order o items) ≡ (o.valid && tail_ordered o.operation items)
unfolding tail_ordered misplaced
verdict_tail [] o g p h = ground arith
verdict_tail (group t ∷ items) o g p h = ground (arith, verdict_tail items (order_item o (group t)))
verdict_tail (value a ∷ items) o g p h = ground (arith, verdict_tail items (order_item o (value a)))

and_regroup :
    (c l t : Bool)
    → (not ((false || not l) || false) && (not ((not c || false) || false) && true) && t)
      ≡ (c && l && t)
and_regroup c l t = ground arith

-- A group ends the operation group before its second attribute.
verdict_left :
    (g : ℕ) (items : List Item) (o : Order)
    → o.saw_operation ≡ true
    → o.index < 2
    → verdict (order (order_item o (group g)) items) ≡ false
verdict_left g items o s h = elim (Bool-cases (g == tag_operation)) [
  | inl again ↦ verdict_invalid items (order_item o (group g)) (ground arith)
  | inr other ↦ verdict_short items (order_item o (group g)) (ground arith) other h
]

abbrev before_first : Order
before_first = record {
  valid = true;
  operation = false;
  index = 0;
  saw_group = false;
  saw_operation = false;
}

abbrev in_operation : Order
in_operation = record {
  valid = true;
  operation = true;
  index = 0;
  saw_group = true;
  saw_operation = true;
}

verdict-leading : (items : List Item) → verdict (order in_operation items) ≡ leading items
unfolding leading misplaced
verdict-leading [] = refl
verdict-leading (group h ∷ items) = verdict_left h items in_operation refl (omega arith)
verdict-leading (value c ∷ []) = ground arith
verdict-leading (value c ∷ group h ∷ items) =
    verdict_left h items (order_item in_operation (value c)) refl (omega arith)
verdict-leading (value c ∷ value l ∷ items) =
    verdict_tail items (order_item (order_item in_operation (value c)) (value l)) refl refl
      (omega arith)
    ∙ and_regroup (is_charset c) (is_language l) (tail_ordered true items)

first_group :
    (g : ℕ) → (g == tag_operation) ≡ true → order_item before_first (group g) ≡ in_operation
first_group g e = ground arith

verdict-ordered : (items : List Item) → verdict (order before_first items) ≡ ordered items
unfolding ordered
verdict-ordered [] = refl
verdict-ordered (value a ∷ items) = verdict-ordered items
verdict-ordered (group g ∷ items) = elim (Bool-cases (g == tag_operation)) [
  | inl e ↦
      rw e (ap (λ (o : Order). verdict (order o items)) (first_group g e) ∙ verdict-leading items)
  | inr e ↦ rw e (verdict_invalid items (order_item before_first (group g)) (rw e refl))
]

outcome-ordered :
    (input : Bytes) (w : Outcome Inspecting Code) {info : RequestInfo}
    → walk_all inspector (start input) (drop header_length input) ≡ w
    → inspect_result (length input) w ≡ ok info
    → info.operation_attributes_valid ≡ ordered (parse_all (drop header_length input)).items
unfolding inspect_end initial_info
outcome-ordered input (ended t d) walked e =
    let parsed = parse_all (drop header_length input) in
    let (reached, _) = run-after parsed.items (start input) parsed.ending t d (
      sym (
        walk-run inspector (length (drop header_length input)) (start input) []
          (drop header_length input))
      ∙ walked) in
    let flag : verdict (view t) ≡ ordered parsed.items =
      ap verdict (ap view reached ∙ view-after parsed.items (start input))
      ∙ verdict-ordered parsed.items in
    ground arith
outcome-ordered input (left c) walked e = cc
outcome-ordered input (broken c) walked e = cc
outcome-ordered input exhausted walked e = cc

-- For every request that is inspected: the flag for valid operation attributes says exactly that
-- the first group is the only operation group and begins with the charset and the language, and
-- that neither comes again in it. Attributes in front of the first group are passed over.
pub inspect_request-ordered :
    (input : Bytes) {info : RequestInfo}
    → inspect_request input ≡ ok info
    → info.operation_attributes_valid ≡ ordered (parse_all (drop header_length input)).items
unfolding inspect_request
inspect_request-ordered input e = elim (Bool-cases (ltb (length input) header_length)) [
  | inl short ↦ cc (rw short at e)
  | inr long ↦ outcome-ordered input _ refl (rw long at e)
]

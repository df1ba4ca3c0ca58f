-- ===== src/Ipp/JobDefaults/Tests.antt =====
-- A Print-Job request through both steps.
use espresso.Prelude.{
  ◌≡◌, refl, arith, Bool, true, none, [], ◌∷◌, ◌++◌, map, drop, ltb, ◌&&◌, All, IsByte, Bytes,
  codes, c_str, equal, to_lower,
}
use espresso.Ipp.{ok}
use espresso.Ipp.Buffer.{
  Heap, be16, attribute_bytes, append, append_u16, append_attribute, extend, allocate, grow,
  new_capacity, read_u16,
}
use espresso.Ipp.Csv.{equal_span}
use espresso.Ipp.Inspect.{tag_keyword}
use espresso.Ipp.JobDefaults.{
  normalize, normalize_end, emit, emit_group, group_action, job_action, table_action, is_neutral,
  is_output_mode, output_name, format_value, encoded_u32_equals, rewrite_request,
}
use espresso.Ipp.JobDefaults.Exact.{Accepted}
use espresso.Ipp.JobDefaults.Request.{sent_items, rewrite_request-sent}
use espresso.Ipp.Rewrite.{
  header_length, tag_uri, rewrite, transform_message, transform_group, transform_attribute,
  transform_end, new_value, rewritten_uri, is_one_of, attribute_presence, presence_flag,
}
use espresso.Ipp.Rewrite.Exact.{output_item, output_value}
use espresso.Ipp.Rewrite.Reparse.{ValueFits, rewrite-parse_all}
use espresso.Ipp.Target.{plain_target}
use espresso.Ipp.Walk.{tag_end, walk, read_attribute, read_value}
use espresso.Ipp.Walk.Parse.{Ending, parse, parse_all}
use espresso.Ipp.Walk.Format.{encode}

abbrev ample : Heap
ample n size = true

abbrev local_uri : Bytes
local_uri = codes "ipp://p/"

abbrev sides_job : Bytes
unfolding attribute_bytes be16
sides_job =
    (1 ∷ 1 ∷ 0 ∷ 2 ∷ 0 ∷ 0 ∷ 0 ∷ 1 ∷ 1 ∷ [])
    ++ attribute_bytes tag_uri (codes "printer-uri") (codes "ipp://a/b")
    ++ (2 ∷ [])
    ++ attribute_bytes tag_keyword (codes "sides") (codes "one-sided")
    ++ tag_end ∷ 7 ∷ []

abbrev sides_job_moved : Bytes
unfolding attribute_bytes be16
sides_job_moved =
    (1 ∷ 1 ∷ 0 ∷ 2 ∷ 0 ∷ 0 ∷ 0 ∷ 1 ∷ 1 ∷ [])
    ++ attribute_bytes tag_uri (codes "printer-uri") (codes "ipp://p/")
    ++ (2 ∷ [])
    ++ attribute_bytes tag_keyword (codes "sides") (codes "one-sided")
    ++ tag_end ∷ 7 ∷ []

abbrev sides_job_sent : Bytes
unfolding attribute_bytes be16
sides_job_sent =
    (1 ∷ 1 ∷ 0 ∷ 2 ∷ 0 ∷ 0 ∷ 0 ∷ 1 ∷ 1 ∷ [])
    ++ attribute_bytes tag_uri (codes "printer-uri") (codes "ipp://p/")
    ++ tag_end ∷ 7 ∷ []

sides_job_made : rewrite ample local_uri (codes "ipp://p") sides_job ≡ ok (sides_job_moved, 55)
unfolding sides_job sides_job_moved attribute_bytes be16 rewrite transform_message transform_group
    transform_attribute transform_end new_value rewritten_uri is_one_of attribute_presence
    presence_flag equal append append_u16 append_attribute extend allocate grow new_capacity walk
    read_attribute read_value read_u16 c_str
sides_job_made = refl

sides_job_normalized :
    normalize ample plain_target none 64 sides_job_moved ≡ (ok (sides_job_sent, 34), [])
unfolding sides_job_moved sides_job_sent attribute_bytes be16 normalize normalize_end emit
    emit_group group_action job_action table_action is_neutral is_output_mode output_name
    format_value encoded_u32_equals equal_span to_lower append append_u16 append_attribute extend
    allocate grow new_capacity walk read_attribute read_value read_u16 c_str equal
sides_job_normalized = refl

sides_job_done :
    rewrite_request ample plain_target none 64 local_uri (codes "ipp://p") sides_job
    ≡ (ok (sides_job_sent, 34), [])
unfolding rewrite_request
sides_job_done = rw (sides_job_made, rewrite_request) sides_job_normalized

abbrev byte_sized : Bytes → Bool
byte_sized [] = true
byte_sized (b ∷ bs) = ltb b 256 && byte_sized bs

byte_sized-All : (bs : Bytes) → byte_sized bs ≡ true → All IsByte bs
byte_sized-All [] e = tt
byte_sized-All (b ∷ bs) e = (ground arith, byte_sized-All bs (ground arith))

sides_job-All : All IsByte sides_job
unfolding sides_job attribute_bytes be16
sides_job-All = byte_sized-All sides_job refl

sides_job-ValueFits :
    All (ValueFits local_uri (codes "ipp://p")) (parse_all (drop header_length sides_job)).items
unfolding output_value rewritten_uri is_one_of equal c_str sides_job attribute_bytes be16 parse
    read_attribute read_value read_u16
sides_job-ValueFits = (tt, (omega arith, (tt, (omega arith, tt))))

rewrite-parse_all_example :
    ((parse_all (drop header_length sides_job_moved)).items
      ≡ map
          (output_item local_uri (codes "ipp://p"))
          (parse_all (drop header_length sides_job)).items)
    × ((parse_all (drop header_length sides_job_moved)).ending
        ≡ (parse_all (drop header_length sides_job)).ending)
rewrite-parse_all_example =
    rewrite-parse_all local_uri (codes "ipp://p") ample sides_job sides_job_moved 55 sides_job-All
      sides_job-ValueFits sides_job_made

rewrite_request-sent_example :
    Accepted plain_target none 0 (
      map
        (output_item local_uri (codes "ipp://p"))
        (parse_all (drop header_length sides_job)).items)
    × ((doc : Bytes) × ((parse_all (drop header_length sides_job)).ending ≡ Ending.document doc)
        × (drop header_length sides_job_sent
            ≡ encode (sent_items plain_target none local_uri (codes "ipp://p") sides_job)
              ++ tag_end ∷ doc))
rewrite_request-sent_example =
    rewrite_request-sent plain_target none local_uri (codes "ipp://p") ample 64 sides_job
      sides_job_sent [] 34 sides_job-All sides_job-ValueFits sides_job_done

-- ===== src/Http/Tests.antt =====
-- A request with a body of three bytes.
use espresso.Prelude.{
  ◌≡◌, refl, true, false, none, some, [], ◌∷◌, ◌++◌, Bytes, codes, equal, to_lower, is_space,
  is_digit, if◌then◌else◌,
}
use espresso.Http.{Request, Reply, got, failed, spent, received, request_read}
use espresso.Http.Ends.{Returns, request_read-Returns, request_open-Returns}
use espresso.Http.Fixed.{IsFixed, Delivers, stream, request_read-IsFixed}
use espresso.Http.Blank.{IsWholeHead}
use espresso.Http.Framing.{IsFramed}
use espresso.Http.Head.{
  trim, split_line, split_mark, request_line, is_version, content_length_header, transfer_header,
  type_header, apply_header, header_line, header_loop, named, parse_headers,
}
use espresso.Http.Open.{new_request, find_end, has_nul, search_from, open_loop, request_open}
use espresso.Http.Opening.{request_open-IsFramed, IsFramed-IsFixed}
use espresso.Http.Sizes.{
  decimal_from, parse_decimal_size, limited_value, parse_decimal_size-limited_value,
}
use espresso.Ipp.Csv.{equal_span, skip_space, trim_end}
use espresso.Ipp.Rewrite.{is_one_of}
use espresso.Ipp.Walk.{is_empty}
use espresso.Raster.{Schedule}

abbrev whole : Schedule
whole n wanted = some wanted

abbrev crlf : Bytes
crlf = 13 ∷ 10 ∷ []

abbrev input : Bytes
input =
    codes "POST /ipp HTTP/1.1" ++ crlf ++ codes "Content-Length: 3" ++ crlf ++ crlf ++ codes "abc"

abbrev request_of : Reply Request → Request
request_of (got r) = r
request_of (failed code) = new_request []
request_of spent = new_request []

abbrev opened : Request
opened = request_of (request_open whole true input)

open-input : request_open whole true input ≡ got opened
unfolding request_open open_loop received search_from find_end has_nul parse_headers split_line
    split_mark request_line is_version named header_loop header_line apply_header
    content_length_header transfer_header type_header trim equal_span skip_space trim_end is_one_of
    parse_decimal_size decimal_from to_lower is_space is_digit equal
open-input = refl

request_open-IsFramed_example :
    IsFramed opened × ((head : Bytes) × (input ≡ head ++ stream opened) × IsWholeHead head)
request_open-IsFramed_example = request_open-IsFramed whole input true opened open-input

opened_unchunked : opened.chunked ≡ false
unfolding request_open open_loop received search_from find_end has_nul parse_headers split_line
    split_mark request_line is_version named header_loop header_line apply_header
    content_length_header transfer_header type_header trim equal_span skip_space trim_end is_one_of
    parse_decimal_size decimal_from to_lower is_space is_digit equal
opened_unchunked = refl

request_read-IsFixed_example :
    IsFixed (request_read whole 2 opened).0 × Delivers whole 2 opened (request_read whole 2 opened)
request_read-IsFixed_example = request_read-IsFixed whole 2 opened (
    IsFramed-IsFixed opened (request_open-IsFramed whole input true opened open-input).0
      opened_unchunked)

parse_decimal_size-limited_value_example :
    parse_decimal_size (codes "120")
    ≡ (if is_empty (codes "120") then none else limited_value 0 (codes "120"))
parse_decimal_size-limited_value_example = parse_decimal_size-limited_value (codes "120")

request_read-Returns_example : Returns (request_read whole 2 opened).1
request_read-Returns_example = request_read-Returns whole 2 opened

request_open-Returns_example : Returns (request_open whole true input)
request_open-Returns_example = request_open-Returns whole true input

-- ===== src/Http/Open.antt =====
-- `ipp_http_request_open` of main/ipp_http_request.c.
use espresso.Prelude.{
  ℕ, zero, suc, ◌+◌, ◌-◌, Bool, false, not, ◌&&◌, ◌||◌, Option, none, some, [], ◌∷◌, ◌++◌, length,
  take, drop, leb, ◌==◌, if◌then◌else◌, Bytes,
}
use espresso.Http.{Request, Reply, got, failed, spent, received}
use espresso.Http.Head.{http_buffer_size, parse_headers}
use espresso.Http.Sizes.{malformed, too_large, no_memory, io_error}
use espresso.Raster.{Schedule}

-- `calloc` of a request.
abbrev pub new_request : Bytes → Request
new_request input = record {
  rest = input;
  reads = 0;
  buffered = [];
  method = [];
  path = [];
  content_type = [];
  content_length = 0;
  fixed_remaining = 0;
  chunk_remaining = 0;
  decoded_length = 0;
  chunked = false;
  expects_continue = false;
  chunk_crlf_pending = false;
  finished = false;
}

-- Behind the first blank line, of the bytes from `index` on.
unfoldable pub find_end : ℕ → Bytes → Option ℕ
find_end index (a ∷ b ∷ c ∷ d ∷ cs) =
    let more = find_end (suc index) (b ∷ c ∷ d ∷ cs) in
    if a == 13 && b == 10 && c == 13 && d == 10 then some (index + 4) else more
find_end index _ = none

unfoldable pub has_nul : Bytes → Bool
has_nul [] = false
has_nul (c ∷ cs) = c == 0 || has_nul cs

module _ (schedule : Schedule) where
  -- The position of the search, after a read behind `previous` bytes and behind a search.
  unfoldable pub search_from : ℕ → ℕ → ℕ
  search_from previous start = if leb 3 previous then previous - 3 else start

  abbrev pub searched : (ℕ → Request → Request × Reply ℕ) → Request → Option ℕ → Request × Reply ℕ
  searched loop r (some header_end) = (r, got header_end)
  searched loop r none = loop (search_from (length r.buffered) 0) r

  abbrev pub appended :
      (ℕ → Request → Request × Reply ℕ) → ℕ → Request → Option Bytes → Request × Reply ℕ
  appended loop start r none = (record r { reads = suc r.reads }, failed io_error)
  appended loop start r (some bytes) =
      let s : Request = record r {
        reads = suc r.reads;
        rest = drop (length bytes) r.rest;
        buffered = r.buffered ++ bytes;
      } in
      let from = search_from (length r.buffered) start in
      searched loop s (find_end from (drop from s.buffered))

  -- The loop of `ipp_http_request_open`. Each turn adds a byte at least, so the size of the buffer
  -- and one more is enough fuel.
  unfoldable pub open_loop : ℕ → ℕ → Request → Request × Reply ℕ
  open_loop zero start r = (r, spent)
  open_loop (suc fuel) start r =
      if length r.buffered == http_buffer_size
      then (r, failed too_large)
      else appended (open_loop fuel) start r
          (received schedule r (http_buffer_size - length r.buffered))

  abbrev pub parsed_head : ℕ → Request → Reply Request
  parsed_head header_end r =
      if has_nul (take header_end r.buffered)
      then failed malformed
      else parse_headers (take (header_end - 2) r.buffered)
          (record r { buffered = drop header_end r.buffered })

  abbrev pub after_head : Request × Reply ℕ → Reply Request
  after_head (r, got header_end) = parsed_head header_end r
  after_head (r, failed code) = failed code
  after_head (r, spent) = spent

  -- `granted` is whether the allocation succeeds, `input` what the reader has.
  unfoldable pub request_open : Bool → Bytes → Reply Request
  request_open granted input =
      if not granted
      then failed no_memory
      else after_head (open_loop (suc http_buffer_size) 0 (new_request input))

-- ===== src/Raster/Tests.antt =====
-- A run of the conversion on a page of one grey pixel.
use espresso.Prelude.{
  ℕ, zero, suc, ◌≡◌, refl, some, [], ◌∷◌, ◌++◌, length, Bytes, codes, equal, c_str,
}
use espresso.Ipp.Buffer.{be32, read_u32}
use espresso.Raster.{
  Schedule, Io, done, pwg_to_urf, require, delivered, read_loop, copy_byte, payload_loop, units,
  encoded, line_loop, row_loop, page_loop, is_expected,
}
use espresso.Raster.Convert.{IsConverted, pwg_to_urf-IsConverted}
use espresso.Raster.Ends.{IsResult, pwg_to_urf-IsResult}
use espresso.Raster.Header.{
  word, known_space, color_space, index_from, media_type, is_color_depth, is_supported, duplex_mode,
  apple_header, page_of, check_line, build_page_header,
}
use espresso.Stream.{Writer, accepted, write_loop}

abbrev zeros : ℕ → Bytes
zeros zero = []
zeros (suc n) = 0 ∷ zeros n

-- 300 dots per inch, one pixel of eight bits in colour space 18.
abbrev header : Bytes
unfolding be32
header =
    codes "PwgRaster"
    ++ zeros 267
    ++ be32 300
    ++ be32 300
    ++ zeros 88
    ++ be32 1
    ++ be32 1
    ++ zeros 4
    ++ be32 8
    ++ be32 8
    ++ be32 1
    ++ zeros 4
    ++ be32 18
    ++ zeros 16
    ++ be32 1
    ++ zeros 28
    ++ be32 1
    ++ zeros 1340

-- A reader that gives all that is wanted, and a writer that takes all that it is offered.
abbrev whole : Schedule
whole n wanted = some wanted

abbrev taking : Writer
taking n bytes = some (length bytes)

abbrev document : Io
unfolding header
document = record {
  rest = codes "RaS2" ++ (header ++ (0 ∷ 0 ∷ 85 ∷ []));
  reads = 0;
  sink = record { taken = []; calls = 0 };
}

abbrev result : Io
result = (pwg_to_urf whole taking document).0

pwg_to_urf-document : pwg_to_urf whole taking document ≡ (result, done tt)
unfolding header document be32 pwg_to_urf require delivered read_loop copy_byte payload_loop units
    encoded line_loop row_loop page_loop is_expected word known_space color_space index_from
    media_type is_color_depth is_supported duplex_mode apple_header page_of check_line
    build_page_header accepted write_loop read_u32 equal c_str
pwg_to_urf-document = refl

pwg_to_urf-IsConverted_example : IsConverted whole taking document result
pwg_to_urf-IsConverted_example =
    pwg_to_urf-IsConverted whole taking document result pwg_to_urf-document

pwg_to_urf-IsResult_example : IsResult (pwg_to_urf whole taking document).1
pwg_to_urf-IsResult_example = pwg_to_urf-IsResult whole taking document

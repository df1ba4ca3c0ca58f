-- ===== src/Raster/Header.antt =====
-- `build_page_header` of main/raster_converter.c and its helpers.
use espresso.Prelude.{
  ℕ, suc, ◌+◌, ◌*◌, ◌/◌, ◌%◌, ◌^◌, Bool, not, ◌&&◌, ◌||◌, Option, none, some, List, [], ◌∷◌, ◌++◌,
  take, drop, ltb, leb, ◌==◌, if◌then◌else◌, Bytes, codes, equal, c_str,
}
use espresso.Ipp.Buffer.{be32, read_u32}

abbrev pub pwg_header_size : ℕ
pwg_header_size = 1796

abbrev pub max_raster_width : ℕ
max_raster_width = 20000

abbrev pub max_raster_height : ℕ
max_raster_height = 200000

abbrev pub max_bytes_per_line : ℕ
max_bytes_per_line = 262144

abbrev pub offset_duplex : ℕ
offset_duplex = 272

abbrev pub offset_x_resolution : ℕ
offset_x_resolution = 276

abbrev pub offset_y_resolution : ℕ
offset_y_resolution = 280

abbrev pub offset_media_position : ℕ
offset_media_position = 324

abbrev pub offset_tumble : ℕ
offset_tumble = 368

abbrev pub offset_width : ℕ
offset_width = 372

abbrev pub offset_height : ℕ
offset_height = 376

abbrev pub offset_bits_per_color : ℕ
offset_bits_per_color = 384

abbrev pub offset_bits_per_pixel : ℕ
offset_bits_per_pixel = 388

abbrev pub offset_bytes_per_line : ℕ
offset_bytes_per_line = 392

abbrev pub offset_color_order : ℕ
offset_color_order = 396

abbrev pub offset_color_space : ℕ
offset_color_space = 400

abbrev pub offset_num_colors : ℕ
offset_num_colors = 420

abbrev pub offset_print_quality : ℕ
offset_print_quality = 484

abbrev pub offset_total_page_count : ℕ
offset_total_page_count = 452

-- `espresso_raster_result_t`, less its OK.
pub data RasterResult : Type 0 where
  invalid : RasterResult
  unsupported : RasterResult
  read_error : RasterResult
  write_error : RasterResult

-- `page_info_t`
pub record Page : Type 0 where
  pub width : ℕ
  pub height : ℕ
  pub bytes_per_line : ℕ
  pub bits_per_pixel : ℕ
  pub bytes_per_pixel : ℕ
  pub apple_color_space : ℕ

-- `read_u32`, at an offset.
unfoldable pub word : ℕ → Bytes → ℕ
word offset header = read_u32 (drop offset header)

-- Apple's number of a colour space and the colours that it asks for.
unfoldable pub known_space : ℕ → Option (ℕ × ℕ)
known_space pwg =
    if pwg == 18
    then some (0, 1)
    else if pwg == 19
    then some (1, 3)
    else if pwg == 16
    then some (2, 3)
    else if pwg == 20
    then some (3, 3)
    else if pwg == 0
    then some (4, 1)
    else if pwg == 1
    then some (5, 3)
    else if pwg == 6
    then some (6, 4)
    else none

-- `color_space`; `none` is its false.
unfoldable pub color_space : ℕ → ℕ → Option ℕ
color_space pwg colors = elim (known_space pwg) [
  | none ↦ none
  | some (apple, wanted) ↦ if colors == wanted then some apple else none
]

abbrev pub media_types : List Bytes
media_types =
    codes "auto"
    ∷ codes "stationery"
    ∷ codes "transparency"
    ∷ codes "envelope"
    ∷ codes "cardstock"
    ∷ codes "labels"
    ∷ codes "stationery-letterhead"
    ∷ codes "disc"
    ∷ codes "photographic-matte"
    ∷ codes "photographic-satin"
    ∷ codes "photographic-semi-gloss"
    ∷ codes "photographic-glossy"
    ∷ codes "photographic-high-gloss"
    ∷ codes "other"
    ∷ []

-- The index of a name from `i` on, 13 where it is missing.
unfoldable pub index_from : ℕ → Bytes → List Bytes → ℕ
index_from i name [] = 13
index_from i name (n ∷ ns) =
    let rest = index_from (suc i) name ns in if equal name n then i else rest

unfoldable pub media_type : Bytes → ℕ
media_type header = index_from 0 (c_str (take 64 (drop 128 header))) media_types

unfoldable pub is_color_depth : ℕ → Bool
is_color_depth n = n == 1 || n == 2 || n == 4 || n == 8 || n == 16

-- What `build_page_header` stores, or the result it returns.
pub data Built : Type 0 where
  built : Bytes → Page → Built
  refused : RasterResult → Built

-- The tests on the fields, less the colour space's.
unfoldable pub is_supported : Bytes → Bool
is_supported pwg =
    equal (take 9 pwg) (codes "PwgRaster")
    && not (word offset_x_resolution pwg == 0)
    && word offset_x_resolution pwg == word offset_y_resolution pwg
    && not (word offset_width pwg == 0)
    && leb (word offset_width pwg) max_raster_width
    && not (word offset_height pwg == 0)
    && leb (word offset_height pwg) max_raster_height
    && word offset_color_order pwg == 0
    && not (word offset_bits_per_pixel pwg == 0)
    && leb (word offset_bits_per_pixel pwg) 255
    && is_color_depth (word offset_bits_per_color pwg)
    && word offset_bits_per_pixel pwg
      == word offset_bits_per_color pwg * word offset_num_colors pwg % 2 ^ 32

unfoldable pub duplex_mode : Bytes → ℕ
duplex_mode pwg =
    if word offset_duplex pwg == 0 then 1 else if word offset_tumble pwg == 0 then 3 else 2

-- The 32 bytes of Apple's page header.
unfoldable pub apple_header : Bytes → ℕ → Bytes
apple_header pwg space =
    (word offset_bits_per_pixel pwg % 256
      ∷ space
      ∷ duplex_mode pwg
      ∷ word offset_print_quality pwg % 256
      ∷ media_type pwg
      ∷ word offset_media_position pwg % 256
      ∷ 0
      ∷ 0
      ∷ 0
      ∷ 0
      ∷ 0
      ∷ 0
      ∷ [])
    ++ be32 (word offset_width pwg)
    ++ be32 (word offset_height pwg)
    ++ be32 (word offset_x_resolution pwg)
    ++ (0 ∷ 0 ∷ 0 ∷ 0 ∷ 0 ∷ 0 ∷ 0 ∷ 0 ∷ [])

unfoldable pub page_of : Bytes → ℕ → Page
page_of pwg space = record {
  width = word offset_width pwg;
  height = word offset_height pwg;
  bytes_per_line = word offset_bytes_per_line pwg;
  bits_per_pixel = word offset_bits_per_pixel pwg;
  bytes_per_pixel = (word offset_bits_per_pixel pwg + 7) / 8;
  apple_color_space = space;
}

-- The tests on the length of a line and of a pixel.
unfoldable pub check_line : Bytes → Page → Built
check_line apple page =
    if page.bytes_per_line == 0
      || ltb max_bytes_per_line page.bytes_per_line
      || not ((page.width * page.bits_per_pixel + 7) / 8 == page.bytes_per_line)
    then refused invalid
    else if page.bytes_per_pixel == 0 || ltb 8 page.bytes_per_pixel
    then refused unsupported
    else built apple page

unfoldable pub build_page_header : Bytes → Built
build_page_header pwg =
    elim (color_space (word offset_color_space pwg) (word offset_num_colors pwg)) [
      | none ↦ refused unsupported
      | some space ↦
          if is_supported pwg
          then check_line (apple_header pwg space) (page_of pwg space)
          else refused unsupported
    ]

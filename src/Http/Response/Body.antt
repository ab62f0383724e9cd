-- ===== src/Http/Response/Body.antt =====
-- The body: by its length, or in chunks.
use nicenet.Common.{ℕ, ◌+◌, ◌%◌, ◌^◌, ◌||◌, [], ◌∷◌, ◌++◌, ◌==◌, if◌then◌else◌, length}
use nicenet.Http.Chars.{is_alpha, is_alnum, c_str}
use nicenet.Http.Numbers.{strtol_hex}
use nicenet.Http.Request.Body.{decrement}
use nicenet.Http.Response.Types.{
  chunk_extension_name, chunk_extension_value, chunk_size_new_line, chunk_size_new_line_2,
  chunk_size_new_line_3, chunk_trailer_name, chunk_trailer_value, chunk_data_new_line_1, chunk_data,
  Parsing, Advance, goes, completed, refused, enter, reserve,
}

abbrev push_content : ℕ → Parsing → Parsing
push_content c m = record m { resp = record (m.resp) { content = m.resp.content ++ c ∷ [] } }

-- `case Post`
unfoldable pub on_post : ℕ → Parsing → Advance
on_post c m =
    let m' = record (push_content c m) { content_size = decrement m.content_size } in
    if m'.content_size == 0 then completed m' else goes m'

-- `case ChunkSize`
unfoldable pub on_chunk_size : ℕ → Parsing → Advance
on_chunk_size c m =
    if is_alnum c
    then goes (record m { chunk_size_str = m.chunk_size_str ++ c ∷ [] })
    else if c == b';'
    then enter chunk_extension_name m
    else if c == b'\r'
    then enter chunk_size_new_line m
    else refused m

-- `case ChunkExtensionName`
unfoldable pub on_extension_name : ℕ → Parsing → Advance
on_extension_name c m =
    if is_alnum c || c == b' '
    then goes m
    else if c == b'='
    then enter chunk_extension_value m
    else if c == b'\r'
    then enter chunk_size_new_line m
    else refused m

-- `case ChunkExtensionValue` and `case ChunkTrailerValue`
unfoldable pub on_skipped_value : ℕ → Parsing → Advance
on_skipped_value c m =
    if is_alnum c || c == b' '
    then goes m
    else if c == b'\r'
    then enter chunk_size_new_line m
    else refused m

-- `case ChunkSizeNewLine`
unfoldable pub on_size_new_line : ℕ → Parsing → Advance
on_size_new_line c m =
    if c == b'\n'
    then (let size = strtol_hex (c_str m.chunk_size_str) in
        let m' = record m { chunk_left = size; chunk_size_str = [] } in
        reserve ((length m.resp.content + size) % 2 ^ 64)
          (if size == 0 then enter chunk_size_new_line_2 m' else enter chunk_data m'))
    else refused m

-- `case ChunkSizeNewLine_2`
unfoldable pub on_size_new_line_2 : ℕ → Parsing → Advance
on_size_new_line_2 c m =
    if c == b'\r'
    then enter chunk_size_new_line_3 m
    else if is_alpha c
    then enter chunk_trailer_name m
    else refused m

-- `case ChunkSizeNewLine_3`
unfoldable pub on_size_new_line_3 : ℕ → Parsing → Advance
on_size_new_line_3 c m = if c == b'\n' then completed m else refused m

-- `case ChunkTrailerName`
unfoldable pub on_trailer_name : ℕ → Parsing → Advance
on_trailer_name c m =
    if is_alnum c then goes m else if c == b':' then enter chunk_trailer_value m else refused m

-- `case ChunkData`
unfoldable pub on_chunk_data : ℕ → Parsing → Advance
on_chunk_data c m =
    let m' = record (push_content c m) { chunk_left = decrement m.chunk_left } in
    if m'.chunk_left == 0 then enter chunk_data_new_line_1 m' else goes m'

-- ===== src/Connections/Details.antt =====
-- connections.c and connections-glue.c: what a connection knows of a request and of its response, and
-- how the resets clear it.
pub mod Clean
use lighttpd_multithread.Base.{
  ℕ, ◌+◌, ◌≡◌, refl, Bool, false, Option, none, some, Outcome, ok, ◌>>=◌,
}
use lighttpd_multithread.Base.Int.{ℤ, pos, negsuc}
use lighttpd_multithread.Base.Memory.{Bytes}
use lighttpd_multithread.Buffer.{Buffer, buffer_reset}
use lighttpd_multithread.Array.{Array}
use lighttpd_multithread.Array.Reset.{data_string_reset, array_reset}

-- `physical`, whose buffers are there unless mod_fastcgi took them.
pub record Physical : Type 0 where
  pub doc_root : Buffer
  pub path : Buffer
  pub basedir : Buffer
  pub rel_path : Buffer
  pub etag : Buffer

-- The entries of the arrays are strings. A pointer that may be NULL is an `Option`; the buffers are
-- there from the start.
pub record Details : Type 0 where
  pub request_line : Buffer
  pub pathinfo : Buffer
  pub request : Buffer
  pub scheme : Buffer
  pub path_raw : Buffer
  pub parse_request : Buffer
  pub server_name : Buffer
  pub tmp_buf : Buffer
  pub tmp_chunk_len : Buffer
  pub physical : Option Physical
  pub http_version : ℤ
  pub http_host : Option Bytes
  pub http_range : Option Bytes
  pub http_content_type : Option Bytes
  pub http_if_modified_since : Option Bytes
  pub http_if_none_match : Option Bytes
  pub te_chunked : ℕ
  pub headers : Array Buffer
  pub environment : Array Buffer
  pub split_vals : Array Buffer
  pub response_headers : Array Buffer
  pub bytes_written : ℕ
  pub bytes_written_cur_second : ℕ
  pub bytes_read : ℕ
  pub bytes_header : ℕ
  pub header_len : ℕ
  pub async_callback : Bool
  pub is_appendjob : Bool

pub http_version_unset : ℤ
http_version_unset = negsuc 0

-- `con->bytes_written += written`, and the same for the second.
abbrev pub counted : Details → ℕ → Details
counted d n = record d {
  bytes_written = d.bytes_written + n;
  bytes_written_cur_second = d.bytes_written_cur_second + n;
}

reset_physical : Option Physical → Outcome (Option Physical)
reset_physical none = ok none
reset_physical (some p) = do
  doc_root ← buffer_reset p.doc_root
  path ← buffer_reset p.path
  basedir ← buffer_reset p.basedir
  rel_path ← buffer_reset p.rel_path
  etag ← buffer_reset p.etag
  ok (
      some (record {
        doc_root = doc_root;
        path = path;
        basedir = basedir;
        rel_path = rel_path;
        etag = etag;
      }))

-- What `connection_response_reset` clears of it.
pub reset_response_details : Details → Outcome Details
unfolding reset_physical
reset_response_details d = do
  p ← reset_physical d.physical
  h ← array_reset data_string_reset d.response_headers
  ok (record d { physical = p; response_headers = h })

-- What `connection_reset` clears of it.
pub reset_request_details : Details → Outcome Details
unfolding http_version_unset
reset_request_details d = do
  request_line ← buffer_reset d.request_line
  pathinfo ← buffer_reset d.pathinfo
  request ← buffer_reset d.request
  scheme ← buffer_reset d.scheme
  path_raw ← buffer_reset d.path_raw
  parse_request ← buffer_reset d.parse_request
  server_name ← buffer_reset d.server_name
  tmp_buf ← buffer_reset d.tmp_buf
  tmp_chunk_len ← buffer_reset d.tmp_chunk_len
  headers ← array_reset data_string_reset d.headers
  environment ← array_reset data_string_reset d.environment
  split_vals ← array_reset data_string_reset d.split_vals
  ok (record d {
    request_line = request_line;
    pathinfo = pathinfo;
    request = request;
    scheme = scheme;
    path_raw = path_raw;
    parse_request = parse_request;
    server_name = server_name;
    tmp_buf = tmp_buf;
    tmp_chunk_len = tmp_chunk_len;
    http_version = http_version_unset;
    http_host = none;
    http_range = none;
    http_content_type = none;
    http_if_modified_since = none;
    http_if_none_match = none;
    te_chunked = 0;
    headers = headers;
    environment = environment;
    split_vals = split_vals;
    bytes_written = 0;
    bytes_written_cur_second = 0;
    bytes_read = 0;
    bytes_header = 0;
    header_len = 0;
    async_callback = false;
    is_appendjob = false;
  })

-- ===== src/Tests/Requests.antt =====
-- What a connection knows of a request with one header, which was answered.
use lighttpd_multithread.Base.{none, some, [], ◌∷◌, false}
use lighttpd_multithread.Base.Int.{pos}
use lighttpd_multithread.Buffer.{Buffer}
use lighttpd_multithread.Buffer.Hex.{codes}
use lighttpd_multithread.Array.{Entry, Array, type_string}
use lighttpd_multithread.Connections.Details.{Physical, Details}
use lighttpd_multithread.Tests.Heaps.{ab, unset}

abbrev pub header : Entry Buffer
header = record { type = type_string; key = some (codes "Host"); is_index_key = false; value = ab }

abbrev pub headers : Array Buffer
headers = record { data_slots = some header ∷ []; sorted = 0 ∷ []; used = 1; unique_ndx = 0 }

abbrev pub no_entries : Array Buffer
no_entries = record { data_slots = []; sorted = []; used = 0; unique_ndx = 0 }

abbrev file : Physical
file = record { doc_root = ab; path = ab; basedir = ab; rel_path = ab; etag = unset }

abbrev pub details : Details
details = record {
  request_line = ab;
  pathinfo = unset;
  request = ab;
  scheme = ab;
  path_raw = ab;
  parse_request = ab;
  server_name = ab;
  tmp_buf = unset;
  tmp_chunk_len = unset;
  physical = some file;
  http_version = pos 1;
  http_host = some (codes "ab");
  http_range = none;
  http_content_type = none;
  http_if_modified_since = none;
  http_if_none_match = none;
  te_chunked = 0;
  headers = headers;
  environment = no_entries;
  split_vals = no_entries;
  response_headers = no_entries;
  bytes_written = 20;
  bytes_written_cur_second = 20;
  bytes_read = 30;
  bytes_header = 20;
  header_len = 30;
  async_callback = false;
  is_appendjob = false;
}

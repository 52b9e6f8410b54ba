-- ===== src/Connections/Details/Clean.antt =====
-- connections.c and connections-glue.c: the resets leave nothing of a request and its response.
use lighttpd_multithread.Base.{◌≡◌, refl, false, Option, none, some, ok, arith}
use lighttpd_multithread.Buffer.Whole.{buffer_reset_used}
use lighttpd_multithread.Array.Reset.{IsFilled, IsEmptied, array_reset-IsEmptied}
use lighttpd_multithread.Connections.Details.{
  Physical, Details, http_version_unset, reset_physical, reset_response_details,
  reset_request_details,
}

-- The arrays have an entry in every slot that they count.
pub record HasArrays (d : Details) : Type 0 where
  pub headers_filled : IsFilled d.headers
  pub environment_filled : IsFilled d.environment
  pub split_vals_filled : IsFilled d.split_vals
  pub response_filled : IsFilled d.response_headers

abbrev pub NoFile : Option Physical → Type 0
NoFile none = Unit
NoFile (some p) =
    (p.doc_root.used ≡ 0)
    × (p.path.used ≡ 0)
    × (p.basedir.used ≡ 0)
    × (p.rel_path.used ≡ 0)
    × (p.etag.used ≡ 0)

-- Nothing of a response is left.
pub record IsUnanswered (d : Details) : Type 0 where
  pub no_file : NoFile d.physical
  pub no_response_headers : IsEmptied d.response_headers

-- Nothing of a request is left.
pub record IsUnasked (d : Details) : Type 0 where
  pub no_request_line : d.request_line.used ≡ 0
  pub no_pathinfo : d.pathinfo.used ≡ 0
  pub no_request : d.request.used ≡ 0
  pub no_scheme : d.scheme.used ≡ 0
  pub no_path_raw : d.path_raw.used ≡ 0
  pub no_parse_request : d.parse_request.used ≡ 0
  pub no_server_name : d.server_name.used ≡ 0
  pub no_tmp_buf : d.tmp_buf.used ≡ 0
  pub no_tmp_chunk_len : d.tmp_chunk_len.used ≡ 0
  pub no_version : d.http_version ≡ http_version_unset
  pub no_host : d.http_host ≡ none
  pub no_range : d.http_range ≡ none
  pub no_content_type : d.http_content_type ≡ none
  pub no_if_modified_since : d.http_if_modified_since ≡ none
  pub no_if_none_match : d.http_if_none_match ≡ none
  pub not_chunked : d.te_chunked ≡ 0
  pub no_headers : IsEmptied d.headers
  pub no_environment : IsEmptied d.environment
  pub no_split_vals : IsEmptied d.split_vals
  pub none_written : d.bytes_written ≡ 0
  pub none_written_cur_second : d.bytes_written_cur_second ≡ 0
  pub none_read : d.bytes_read ≡ 0
  pub no_bytes_header : d.bytes_header ≡ 0
  pub no_header_len : d.header_len ≡ 0
  pub no_callback : d.async_callback ≡ false
  pub not_queued : d.is_appendjob ≡ false

reset_physical_lem :
    (p : Option Physical) → (r : Option Physical) × (reset_physical p ≡ ok r) × NoFile r
unfolding reset_physical
reset_physical_lem none = (none, refl, tt)
reset_physical_lem (some p) =
    let (doc_root, e1, u1) = buffer_reset_used p.doc_root in
    let (path, e2, u2) = buffer_reset_used p.path in
    let (basedir, e3, u3) = buffer_reset_used p.basedir in
    let (rel_path, e4, u4) = buffer_reset_used p.rel_path in
    let (etag, e5, u5) = buffer_reset_used p.etag in
    (
      some (record {
        doc_root = doc_root;
        path = path;
        basedir = basedir;
        rel_path = rel_path;
        etag = etag;
      }),
      rw (e1, e2, e3, e4, e5) refl,
      (u1, u2, u3, u4, u5),
    )

pub reset_response_lem :
    (d : Details)
    → HasArrays d
    → (r : Details) × (reset_response_details d ≡ ok r) × IsUnanswered r × HasArrays r
unfolding reset_response_details
reset_response_lem d v =
    let (p, e, f) = reset_physical_lem d.physical in
    let (h, g, z) = array_reset-IsEmptied d.response_headers v.response_filled in
    (
      record d { physical = p; response_headers = h },
      rw (e, g) refl,
      record { no_file = f; no_response_headers = z },
      record {
        headers_filled = v.headers_filled;
        environment_filled = v.environment_filled;
        split_vals_filled = v.split_vals_filled;
        response_filled = λ n lt. absurd (omega (arith, z.none_used, lt));
      },
    )

pub reset_request_lem :
    (d : Details)
    → HasArrays d
    → IsUnanswered d
    → (r : Details) × (reset_request_details d ≡ ok r) × IsUnasked r × IsUnanswered r
unfolding reset_request_details http_version_unset
reset_request_lem d v a =
    let (request_line, e0, u0) = buffer_reset_used d.request_line in
    let (pathinfo, e1, u1) = buffer_reset_used d.pathinfo in
    let (request, e2, u2) = buffer_reset_used d.request in
    let (scheme, e3, u3) = buffer_reset_used d.scheme in
    let (path_raw, e4, u4) = buffer_reset_used d.path_raw in
    let (parse_request, e5, u5) = buffer_reset_used d.parse_request in
    let (server_name, e6, u6) = buffer_reset_used d.server_name in
    let (tmp_buf, e7, u7) = buffer_reset_used d.tmp_buf in
    let (tmp_chunk_len, e8, u8) = buffer_reset_used d.tmp_chunk_len in
    let (headers, g1, z1) = array_reset-IsEmptied d.headers v.headers_filled in
    let (environment, g2, z2) = array_reset-IsEmptied d.environment v.environment_filled in
    let (split_vals, g3, z3) = array_reset-IsEmptied d.split_vals v.split_vals_filled in
    (
      record d {
        request_line = request_line;
        pathinfo = pathinfo;
        request = request;
        scheme = scheme;
        path_raw = path_raw;
        parse_request = parse_request;
        server_name = server_name;
        tmp_buf = tmp_buf;
        tmp_chunk_len = tmp_chunk_len;
        http_version = http_version_unset;
        http_host = none;
        http_range = none;
        http_content_type = none;
        http_if_modified_since = none;
        http_if_none_match = none;
        te_chunked = 0;
        headers = headers;
        environment = environment;
        split_vals = split_vals;
        bytes_written = 0;
        bytes_written_cur_second = 0;
        bytes_read = 0;
        bytes_header = 0;
        header_len = 0;
        async_callback = false;
        is_appendjob = false;
      },
      rw (e0, e1, e2, e3, e4, e5, e6, e7, e8, g1, g2, g3) refl,
      record {
        no_request_line = u0;
        no_pathinfo = u1;
        no_request = u2;
        no_scheme = u3;
        no_path_raw = u4;
        no_parse_request = u5;
        no_server_name = u6;
        no_tmp_buf = u7;
        no_tmp_chunk_len = u8;
        no_version = refl;
        no_host = refl;
        no_range = refl;
        no_content_type = refl;
        no_if_modified_since = refl;
        no_if_none_match = refl;
        not_chunked = refl;
        no_headers = z1;
        no_environment = z2;
        no_split_vals = z3;
        none_written = refl;
        none_written_cur_second = refl;
        none_read = refl;
        no_bytes_header = refl;
        no_header_len = refl;
        no_callback = refl;
        not_queued = refl;
      },
      record { no_file = a.no_file; no_response_headers = a.no_response_headers },
    )

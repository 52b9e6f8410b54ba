-- ===== src/Keyvalue.antt =====
-- keyvalue.c: the names of methods, versions and status codes.
pub mod Names
use lighttpd_multithread.Base.{
  ℕ, Bool, true, false, ◌&&◌, Option, none, some, List, [], ◌∷◌, ◌==◌, if◌then◌else◌,
}
use lighttpd_multithread.Base.Int.{ℤ, pos, negsuc}
use lighttpd_multithread.Base.Memory.{Bytes}
use lighttpd_multithread.Buffer.Hex.{codes}

pub record Keyvalue : Type 0 where
  pub key : ℤ
  pub value : Bytes

abbrev row : ℕ → Bytes → Keyvalue
row k s = record { key = pos k; value = s }

abbrev pub http_versions : List Keyvalue
http_versions = row 1 (codes "HTTP/1.1") ∷ row 0 (codes "HTTP/1.0") ∷ []

abbrev pub http_methods : List Keyvalue
http_methods =
    row 0 (codes "GET")
    ∷ row 1 (codes "HEAD")
    ∷ row 2 (codes "POST")
    ∷ row 3 (codes "PUT")
    ∷ row 4 (codes "DELETE")
    ∷ row 5 (codes "CONNECT")
    ∷ row 6 (codes "OPTIONS")
    ∷ row 7 (codes "TRACE")
    ∷ row 8 (codes "ACL")
    ∷ row 9 (codes "BASELINE-CONTROL")
    ∷ row 10 (codes "BIND")
    ∷ row 11 (codes "CHECKIN")
    ∷ row 12 (codes "CHECKOUT")
    ∷ row 13 (codes "COPY")
    ∷ row 14 (codes "LABEL")
    ∷ row 15 (codes "LINK")
    ∷ row 16 (codes "LOCK")
    ∷ row 17 (codes "MERGE")
    ∷ row 18 (codes "MKACTIVITY")
    ∷ row 19 (codes "MKCALENDAR")
    ∷ row 20 (codes "MKCOL")
    ∷ row 21 (codes "MKREDIRECTREF")
    ∷ row 22 (codes "MKWORKSPACE")
    ∷ row 23 (codes "MOVE")
    ∷ row 24 (codes "ORDERPATCH")
    ∷ row 25 (codes "PATCH")
    ∷ row 26 (codes "PROPFIND")
    ∷ row 27 (codes "PROPPATCH")
    ∷ row 28 (codes "REBIND")
    ∷ row 29 (codes "REPORT")
    ∷ row 30 (codes "SEARCH")
    ∷ row 31 (codes "UNBIND")
    ∷ row 32 (codes "UNCHECKOUT")
    ∷ row 33 (codes "UNLINK")
    ∷ row 34 (codes "UNLOCK")
    ∷ row 35 (codes "UPDATE")
    ∷ row 36 (codes "UPDATEREDIRECTREF")
    ∷ row 37 (codes "VERSION-CONTROL")
    ∷ []

abbrev pub http_status : List Keyvalue
http_status =
    row 100 (codes "Continue")
    ∷ row 101 (codes "Switching Protocols")
    ∷ row 102 (codes "Processing")
    ∷ row 200 (codes "OK")
    ∷ row 201 (codes "Created")
    ∷ row 202 (codes "Accepted")
    ∷ row 203 (codes "Non-Authoritative Information")
    ∷ row 204 (codes "No Content")
    ∷ row 205 (codes "Reset Content")
    ∷ row 206 (codes "Partial Content")
    ∷ row 207 (codes "Multi-status")
    ∷ row 300 (codes "Multiple Choices")
    ∷ row 301 (codes "Moved Permanently")
    ∷ row 302 (codes "Found")
    ∷ row 303 (codes "See Other")
    ∷ row 304 (codes "Not Modified")
    ∷ row 305 (codes "Use Proxy")
    ∷ row 306 (codes "(Unused)")
    ∷ row 307 (codes "Temporary Redirect")
    ∷ row 308 (codes "Permanent Redirect")
    ∷ row 400 (codes "Bad Request")
    ∷ row 401 (codes "Unauthorized")
    ∷ row 402 (codes "Payment Required")
    ∷ row 403 (codes "Forbidden")
    ∷ row 404 (codes "Not Found")
    ∷ row 405 (codes "Method Not Allowed")
    ∷ row 406 (codes "Not Acceptable")
    ∷ row 407 (codes "Proxy Authentication Required")
    ∷ row 408 (codes "Request Timeout")
    ∷ row 409 (codes "Conflict")
    ∷ row 410 (codes "Gone")
    ∷ row 411 (codes "Length Required")
    ∷ row 412 (codes "Precondition Failed")
    ∷ row 413 (codes "Request Entity Too Large")
    ∷ row 414 (codes "Request-URI Too Long")
    ∷ row 415 (codes "Unsupported Media Type")
    ∷ row 416 (codes "Requested Range Not Satisfiable")
    ∷ row 417 (codes "Expectation Failed")
    ∷ row 422 (codes "Unprocessable Entity")
    ∷ row 423 (codes "Locked")
    ∷ row 424 (codes "Failed Dependency")
    ∷ row 426 (codes "Upgrade Required")
    ∷ row 500 (codes "Internal Server Error")
    ∷ row 501 (codes "Not Implemented")
    ∷ row 502 (codes "Bad Gateway")
    ∷ row 503 (codes "Service Not Available")
    ∷ row 504 (codes "Gateway Timeout")
    ∷ row 505 (codes "HTTP Version Not Supported")
    ∷ row 507 (codes "Insufficient Storage")
    ∷ []

abbrev pub http_status_body : List Keyvalue
http_status_body =
    row 400 (codes "400.html")
    ∷ row 401 (codes "401.html")
    ∷ row 403 (codes "403.html")
    ∷ row 404 (codes "404.html")
    ∷ row 411 (codes "411.html")
    ∷ row 416 (codes "416.html")
    ∷ row 500 (codes "500.html")
    ∷ row 501 (codes "501.html")
    ∷ row 503 (codes "503.html")
    ∷ row 505 (codes "505.html")
    ∷ []

-- The test of two keys, and of two strings by `strcmp`.
abbrev pub same_key : ℤ → ℤ → Bool
same_key (pos a) (pos b) = a == b
same_key (pos a) (negsuc b) = false
same_key (negsuc a) (pos b) = false
same_key (negsuc a) (negsuc b) = a == b

abbrev pub same_string : Bytes → Bytes → Bool
same_string [] [] = true
same_string [] (c ∷ t) = false
same_string (c ∷ s) [] = false
same_string (c ∷ s) (d ∷ t) = c == d && same_string s t

pub keyvalue_get_value : List Keyvalue → ℤ → Option Bytes
keyvalue_get_value [] k = none
keyvalue_get_value (kv ∷ rest) k =
    let later = keyvalue_get_value rest k in if same_key kv.key k then some kv.value else later

pub keyvalue_get_key : List Keyvalue → Bytes → ℤ
keyvalue_get_key [] s = negsuc 0
keyvalue_get_key (kv ∷ rest) s =
    let later = keyvalue_get_key rest s in if same_string kv.value s then kv.key else later

pub get_http_version_name : ℤ → Option Bytes
unfolding keyvalue_get_value
get_http_version_name i = keyvalue_get_value http_versions i

pub get_http_status_name : ℤ → Option Bytes
unfolding keyvalue_get_value
get_http_status_name i = keyvalue_get_value http_status i

pub get_http_method_name : ℤ → Option Bytes
unfolding keyvalue_get_value
get_http_method_name i = keyvalue_get_value http_methods i

pub get_http_status_body_name : ℤ → Option Bytes
unfolding keyvalue_get_value
get_http_status_body_name i = keyvalue_get_value http_status_body i

pub get_http_version_key : Bytes → ℤ
unfolding keyvalue_get_key
get_http_version_key s = keyvalue_get_key http_versions s

pub get_http_method_key : Bytes → ℤ
unfolding keyvalue_get_key
get_http_method_key s = keyvalue_get_key http_methods s

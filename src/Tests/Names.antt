-- ===== src/Tests/Names.antt =====
-- The method VERSION-CONTROL.
use lighttpd_multithread.Base.{◌≡◌, ◌≢◌, some}
use lighttpd_multithread.Base.Int.{pos, negsuc}
use lighttpd_multithread.Buffer.Hex.{codes}
use lighttpd_multithread.Keyvalue.{get_http_method_name, get_http_method_key}
use lighttpd_multithread.Keyvalue.Names.{method_name_lem}

method_name_lem_example :
    (get_http_method_name (pos 37) ≡ some (codes "VERSION-CONTROL")
      → get_http_method_key (codes "VERSION-CONTROL") ≡ pos 37)
    × (pos 37 ≢ negsuc 0
        → get_http_method_key (codes "VERSION-CONTROL") ≡ pos 37
        → get_http_method_name (pos 37) ≡ some (codes "VERSION-CONTROL"))
method_name_lem_example = method_name_lem (pos 37) (codes "VERSION-CONTROL")

-- ===== src/Tests/Numbers.antt =====
-- Numbers in digits.
use lighttpd_multithread.Base.{◌-◌, ◌^◌, ◌++◌, arith}
use lighttpd_multithread.Base.Memory.{Bytes}
use lighttpd_multithread.Buffer.Hex.{codes}
use lighttpd_multithread.Buffer.Holds.{Stores}
use lighttpd_multithread.Buffer.Number.{buffer_append_int}
use lighttpd_multithread.Buffer.Number.Integer.{IsInteger, append_int-Stores}
use lighttpd_multithread.Tests.Heaps.{heap, ab, ab-Holds}

-- -1 in 64 bits.
append_int-Stores_example :
    (t : Bytes) × IsInteger (2 ^ 64 - 1) t
    × Stores (codes "ab" ++ t) (buffer_append_int heap ab (2 ^ 64 - 1))
append_int-Stores_example =
    append_int-Stores heap ab (codes "ab") (2 ^ 64 - 1) ab-Holds (omega arith)

-- ===== src/Net/HostPort.antt =====
-- `net.JoinHostPort`.
use dnswatcher.Prelude.{◌++◌, any, ◌==◌, if◌then◌else◌, Bytes, codes}

-- A host with a colon, as an IPv6 address has, is put in brackets.
unfoldable pub join_host_port : Bytes → Bytes → Bytes
join_host_port host port =
    if any (λ c. c == b':') host
    then codes "[" ++ (host ++ (codes "]:" ++ port))
    else host ++ (codes ":" ++ port)

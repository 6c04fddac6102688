-- ===== src/Net/Tests.antt =====
-- Runs of the address functions, beside the documented results of Go's.
use webhttp.Prelude.{true, false, ◌≡◌, refl, none, some, codes}
use webhttp.Net.{v4, v6, contains, unmap, masked, split_host_port}

splits :
    (split_host_port (codes "127.0.0.1:80") ≡ some (codes "127.0.0.1"))
    × (split_host_port (codes "[::1]:80") ≡ some (codes "::1"))
    × (split_host_port (codes "::1:80") ≡ none)
    × (split_host_port (codes "[::1]80") ≡ none)
    × (split_host_port (codes ":8080") ≡ some (codes ""))
    × (split_host_port (codes "localhost") ≡ none)
unfolding split_host_port
splits = (refl, refl, refl, refl, refl, refl)

ranges :
    (contains (record { addr = v4 0x0a000000; bits = 8 }) (v4 0x0a010203) ≡ true)
    × (contains (record { addr = v4 0x0a000000; bits = 8 }) (v4 0x0b010203) ≡ false)
    × (unmap (v6 0xffff0a000001 (codes "eth0")) ≡ v4 0x0a000001)
    × (masked (record { addr = v4 0x0a010203; bits = 8 })
        ≡ record { addr = v4 0x0a000000; bits = 8 })
unfolding contains unmap masked
ranges = (refl, refl, refl, refl)

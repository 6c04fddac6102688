-- ===== src/Bind.antt =====
-- bindclass.go: whether a listen address is reachable from outside.
use webhttp.Prelude.{none, some, if◌then◌else◌, Bytes, codes}
use webhttp.AsciiFold.{equal_ascii_fold}
use webhttp.Net.{split_host_port}
use webhttp.Host.{HostText}

pub data BindClass : Type 0 where
  bind_invalid bind_loopback bind_exposed : BindClass

unfoldable pub bind_string : BindClass → Bytes
bind_string bind_loopback = codes "loopback"
bind_string bind_exposed = codes "exposed"
bind_string bind_invalid = codes "invalid"

module _ (text : HostText) where
  open text use {parse_ip, is_loopback}

  unfoldable pub classify_bind_host : Bytes → BindClass
  unfolding equal_ascii_fold
  classify_bind_host host =
      if equal_ascii_fold host (codes "localhost") then bind_loopback else elim (parse_ip host) [
        | none ↦ bind_exposed
        | some ip ↦ if is_loopback ip then bind_loopback else bind_exposed
      ]

  unfoldable pub classify_bind : Bytes → BindClass
  unfolding split_host_port
  classify_bind addr = elim (split_host_port addr) [
    | none ↦ bind_invalid
    | some host ↦ classify_bind_host host
  ]

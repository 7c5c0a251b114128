-- ===== src/Base/Url.antt =====
-- Go's `net/url`, `net` and `net/http`, as far as the source relies on them to build a request.
-- They are parameters.
use ai_proxy_pool.Base.{Bool, Option}
use ai_proxy_pool.Base.Text.{Bytes}

-- A parsed `url.URL`; `rest` stands for the fields that the source does not touch.
pub record Url : Type 0 where
  pub scheme : Bytes
  pub host : Bytes
  pub path : Bytes
  pub raw_query : Bytes
  pub rest : Bytes

pub record Net : Type 0 where
  -- url.Parse, none for an error
  pub parse : Bytes → Option Url
  -- u.String()
  pub print : Url → Bytes
  -- net.SplitHostPort, the host alone, none for an error
  pub split_host : Bytes → Option Bytes
  -- net.ParseIP(s) gives an address of the loopback interface
  pub is_loopback_ip : Bytes → Bool

-- ===== src/Config/Inputs.antt =====
-- internal/sys/config/config.go: validateInputs. quote is the verb %q.

use arxsentinel.Common.{
  ℕ, Bool, not, ◌&&◌, ◌||◌, Option, none, some, List, [], ◌∷◌, ◌++◌, if◌then◌else◌, is_empty, Text,
  codes, text_eq, has_prefix,
}
use arxsentinel.Config.{
  Queues, InputConfig, fail_if, first_error, first_failure, first_error_keyed, at,
}

module _ (quote : Text → Text) (q : Queues) where
  unfoldable pub input_key : InputConfig q → Text
  input_key s =
      if text_eq s.input_type (codes "http")
      then s.input_type ++ (codes ":" ++ (s.addr ++ (codes ":" ++ s.url)))
      else s.input_type ++ (codes ":" ++ s.path)

  abbrev is_type : InputConfig q → Text → Bool
  is_type s t = text_eq s.input_type t

  abbrev of_input : ℕ → Text → Text
  of_input i message = at (codes "inputs") i ++ (codes ": " ++ message)

  abbrev is_known : InputConfig q → Bool
  is_known s =
      is_type s (codes "file")
      || is_type s (codes "stdin")
      || is_type s (codes "exec")
      || is_type s (codes "syslog")
      || is_type s (codes "http")
      || is_type s (codes "sentinel")

  -- The two checks of a TLS key pair, for an address that may be https.
  unfoldable pub tls_error : ℕ → Text → InputConfig q → Option Text
  tls_error i address s =
      if has_prefix address (codes "https://")
      then first_failure (
          (is_empty s.tls_cert, of_input i (codes "http https: tls_cert is required"))
          ∷ (is_empty s.tls_key, of_input i (codes "http https: tls_key is required"))
          ∷ [])
      else none

  unfoldable pub push_error : ℕ → InputConfig q → Option Text
  unfolding tls_error
  push_error i s = first_error (
      fail_if (is_empty s.addr) (of_input i (codes "http push: addr is required"))
      ∷ fail_if (is_empty s.protocol) (of_input i (codes "http push: protocol is required"))
      ∷ tls_error i s.addr s
      ∷ [])

  unfoldable pub pull_error : ℕ → InputConfig q → Option Text
  unfolding tls_error
  pull_error i s = first_error (
      fail_if (is_empty s.url) (of_input i (codes "http pull: url is required"))
      ∷ fail_if (is_empty s.protocol) (of_input i (codes "http pull: protocol is required"))
      ∷ fail_if (is_empty s.pull_interval)
          (of_input i (codes "http pull: pull_interval is required"))
      ∷ tls_error i s.url s
      ∷ [])

  unfoldable pub mode_error : ℕ → InputConfig q → Option Text
  unfolding push_error pull_error
  mode_error i s =
      if is_empty s.mode || text_eq s.mode (codes "push")
      then push_error i s
      else if text_eq s.mode (codes "pull")
      then pull_error i s
      else some (
          of_input i
            (codes "http: unknown mode " ++ (quote s.mode ++ codes " (want push or pull)")))

  unfoldable pub http_error : ℕ → InputConfig q → Option Text
  unfolding mode_error
  http_error i s = first_error (
      mode_error i s
      ∷ fail_if (text_eq s.protocol (codes "ndjson") && is_empty s.envelope_field)
          (of_input i (codes "http ndjson: envelope_field is required"))
      ∷ [])

  -- The checks of an entry before that of its key.
  unfoldable pub input_error : ℕ → InputConfig q → Option Text
  unfolding http_error
  input_error i s = first_error (
      fail_if (not (is_known s)) (
        of_input i (
          codes "unknown type "
          ++ (quote s.input_type ++ codes " (want file, stdin, exec, syslog, http, or sentinel)")))
      ∷ fail_if (is_type s (codes "syslog") && is_empty s.addr)
          (of_input i (codes "type=syslog requires addr (e.g. \"udp://:5514\")"))
      ∷ (if is_type s (codes "http") then http_error i s else none)
      ∷ [])

  unfoldable pub repeated_input : ℕ → InputConfig q → Option Text
  unfolding input_key
  repeated_input i s = some (of_input i (codes "duplicate source " ++ quote (input_key s)))

  unfoldable pub input_path_error : ℕ → InputConfig q → Option Text
  input_path_error i s =
      fail_if (is_type s (codes "file") && is_empty s.path)
        (of_input i (codes "type=file requires path"))

  unfoldable pub validate_inputs : List (InputConfig q) → Option Text
  unfolding input_key input_error repeated_input input_path_error
  validate_inputs inputs =
      first_error_keyed input_key input_error input_path_error repeated_input 0 [] inputs

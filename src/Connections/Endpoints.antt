-- ===== src/Connections/Endpoints.antt =====
-- `parseEndpoint` reads what `endpointText` writes.
pub mod Bare
use freenetic.Base.{
  is_space, is_digit, is_decimal, ℕ, Bool, true, false, not, ◌&&◌, ◌||◌, [], ◌∷◌, ◌++◌, none, some,
  ◌≡◌, ◌≢◌, ◌⊎◌, refl, sym, ap, ◌∙◌, inl, inr, ◌==◌, ==_iff, Text, every, every-append, some_of,
  Bool-cases, arith, all_below, all_below_sound, ◌<◌, append_assoc, append-nil,
}
use mathlib.Core.Path.{subst}
use freenetic.Network.Address.Split.{free, decimal-free}
use freenetic.Connections.Fields.{
  list_text, parse_endpoint, endpoint_of, endpoint_text, shown_host, bracketed, bracketed_parts,
  bracket_or_colon, by_colon, colon_parts, split_last, is_host,
}
use freenetic.Connections.Lines.{IsWritable, trim-IsWritable, cut_at-append}
use freenetic.Connections.Tokens.{is_token, IsToken, list_text-IsWritable}
use freenetic.Connections.Endpoints.Bare.{
  is_bare, split_last-free, split_last-append, free_of_none, bare-free, token_table, bare_token,
  bare_tokens, digit_bare, digits_bare, decimal_bare,
}

-- A host that is not empty, without brackets, and a port of digits or none.
unfoldable pub IsEndpoint : Text → Text → Type 0
IsEndpoint host port =
    host ≢ [] × every is_bare host ≡ true × (port ≡ [] ⊎ (is_decimal port ≡ true))

-- The part for the port: a colon and digits, or nothing.
abbrev port_part : Text → Text
port_part [] = []
port_part (d ∷ port) = b':' ∷ d ∷ port

by_colon-port :
    (host port : Text)
    → port ≡ [] ⊎ (is_decimal port ≡ true)
    → free b':' host ≡ true
    → by_colon (host ++ port_part port) ≡ (host, port)
unfolding by_colon colon_parts
by_colon-port host [] h f =
    let e : by_colon host ≡ (host, []) = ap (colon_parts host) (split_last-free b':' host f) in
    rw (append-nil host) e
by_colon-port host (d ∷ port) (inl e) f = cc
by_colon-port host (d ∷ port) (inr h) f =
    ap (colon_parts (host ++ b':' ∷ d ∷ port))
      (split_last-append b':' host (d ∷ port) (decimal-free b':' (d ∷ port) refl h))
    ∙ rw h refl

bracketed-port :
    (c : ℕ) (host port : Text)
    → port ≡ [] ⊎ (is_decimal port ≡ true)
    → free b']' (c ∷ host) ≡ true
    → bracketed ((c ∷ host) ++ b']' ∷ port_part port) ≡ some (c ∷ host, port)
unfolding bracketed bracketed_parts
bracketed-port c host [] h f = ap bracketed_parts (cut_at-append b']' (c ∷ host) [] f)
bracketed-port c host (d ∷ port) (inl e) f = cc
bracketed-port c host (d ∷ port) (inr h) f =
    ap bracketed_parts (cut_at-append b']' (c ∷ host) (b':' ∷ d ∷ port) f) ∙ rw h refl

endpoint_text-parts :
    (c : ℕ) (host port : Text)
    → endpoint_text (c ∷ host) port ≡ shown_host (c ∷ host) ++ port_part port
unfolding endpoint_text
endpoint_text-parts c host [] = sym (append-nil (shown_host (c ∷ host)))
endpoint_text-parts c host (d ∷ port) = refl

-- The shown host is the host, which then has no colon, or the host in brackets.
shown_cases :
    (c : ℕ) (host : Text)
    → every is_bare (c ∷ host) ≡ true
    → (shown_host (c ∷ host) ≡ c ∷ host × free b':' (c ∷ host) ≡ true × (c == b'[') ≡ false)
      ⊎ (shown_host (c ∷ host) ≡ b'[' ∷ (c ∷ host ++ b']' ∷ []))
unfolding shown_host every
shown_cases c host h =
    let other : (c == b'[') ≡ false = ground arith in
    elim (Bool-cases (some_of (λ d. d == b':') (c ∷ host))) [
      | inl e ↦ inr (rw (e, other) refl)
      | inr e ↦ inl (rw e refl, free_of_none b':' (c ∷ host) e, other)
    ]

port_bare :
    (port : Text) → port ≡ [] ⊎ (is_decimal port ≡ true) → every is_token (port_part port) ≡ true
unfolding every is_space
port_bare [] h = refl
port_bare (d ∷ port) (inl e) = cc
port_bare (d ∷ port) (inr h) = bare_tokens (d ∷ port) (decimal_bare (d ∷ port) h)

bracket_token :
    (s : Text) (c : ℕ) → is_token c ≡ true → every is_token s ≡ true → every is_token (c ∷ s) ≡ true
unfolding every
bracket_token s c e k = rw (e, k) refl

bare_shape :
    (c : ℕ) (host port : Text)
    → every is_token (c ∷ host) ≡ true
    → every is_token (port_part port) ≡ true
    → IsToken (c ∷ host ++ port_part port)
bare_shape c host port h k =
    ((λ e. cc), every-append is_token (c ∷ host) (port_part port) ∙ rw (h, k) refl)

bracket_shape :
    (c : ℕ) (host port : Text)
    → every is_token (c ∷ host) ≡ true
    → every is_token (port_part port) ≡ true
    → IsToken (b'[' ∷ (c ∷ host ++ (b']' ∷ port_part port)))
unfolding is_space
bracket_shape c host port h k = (
  (λ e. cc),
  behind_bracket (c ∷ host ++ (b']' ∷ port_part port)) (
      every-append is_token (c ∷ host) (b']' ∷ port_part port)
      ∙ rw h (behind_bracket_end (port_part port) k)),
)
  where
    behind_bracket : (s : Text) → every is_token s ≡ true → every is_token (b'[' ∷ s) ≡ true
    behind_bracket s e = bracket_token s b'[' refl e

    behind_bracket_end : (s : Text) → every is_token s ≡ true → every is_token (b']' ∷ s) ≡ true
    behind_bracket_end s e = bracket_token s b']' refl e

pub endpoint-IsToken : (host port : Text) → IsEndpoint host port → IsToken (endpoint_text host port)
unfolding IsEndpoint
endpoint-IsToken [] port (ne, _, _) = absurd (ne refl)
endpoint-IsToken (c ∷ host) port (ne, bare, digits) =
    let tokens = bare_tokens (c ∷ host) bare in
    elim (shown_cases c host bare) [
      | inl (e, _, _) ↦
          subst IsToken (sym (endpoint_text-parts c host port ∙ ap (λ s. s ++ port_part port) e))
            (bare_shape c host port tokens (port_bare port digits))
      | inr e ↦
          subst IsToken
            (sym (
              endpoint_text-parts c host port
              ∙ ap (λ s. s ++ port_part port) e
              ∙ ap (λ s. b'[' ∷ s) (append_assoc (c ∷ host) (b']' ∷ []) (port_part port))))
            (bracket_shape c host port tokens (port_bare port digits))
    ]

pub endpoint-IsWritable :
    (host port : Text) → IsEndpoint host port → IsWritable (endpoint_text host port)
unfolding list_text endpoint_text
endpoint-IsWritable host port h =
    list_text-IsWritable (endpoint_text host port ∷ []) (endpoint-IsToken host port h, tt)

without_bracket : (c : ℕ) (s : Text) → (c == b'[') ≡ false → endpoint_of (c ∷ s) ≡ by_colon (c ∷ s)
unfolding endpoint_of
without_bracket c s e = rw e refl

with_bracket :
    (s : Text) (parts : Text × Text) → bracketed s ≡ some parts → endpoint_of (b'[' ∷ s) ≡ parts
unfolding endpoint_of bracket_or_colon
with_bracket s parts e = ap (bracket_or_colon (b'[' ∷ s)) e

-- A host without brackets and a port of digits or none, written as an endpoint, are read back.
pub parse_endpoint-endpoint_text :
    (host port : Text)
    → IsEndpoint host port
    → parse_endpoint (endpoint_text host port) ≡ (host, port)
unfolding IsEndpoint parse_endpoint
parse_endpoint-endpoint_text [] port (ne, _, _) = absurd (ne refl)
parse_endpoint-endpoint_text (c ∷ host) port (ne, bare, digits) =
    ap endpoint_of (
      trim-IsWritable (endpoint_text (c ∷ host) port)
        (endpoint-IsWritable (c ∷ host) port (ne, bare, digits))
      ∙ endpoint_text-parts c host port)
    ∙ elim (shown_cases c host bare) [
      | inl (e, f, other) ↦
          ap (λ s. endpoint_of (s ++ port_part port)) e
          ∙ without_bracket c (host ++ port_part port) other
          ∙ by_colon-port (c ∷ host) port digits f
      | inr e ↦
          ap (λ s. endpoint_of (s ++ port_part port)) e
          ∙ ap (λ s. endpoint_of (b'[' ∷ s)) (append_assoc (c ∷ host) (b']' ∷ []) (port_part port))
          ∙ with_bracket (c ∷ host ++ b']' ∷ port_part port) (c ∷ host, port)
              (bracketed-port c host port digits (bare-free (c ∷ host) bare))
    ]

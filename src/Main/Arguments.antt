-- ===== src/Main/Arguments.antt =====
-- gopherus.c, main: the arguments of the command line.
pub mod Valid
use gopherus.Base.{
  is_zero, ℕ, Bool, true, false, not, ◌&&◌, List, [], ◌∷◌, ◌==◌, if◌then◌else◌, Bytes, Option, none,
  some, codes, strcmp_eq, get_or, drop, List-cases, Bool-cases, inl, inr, ◌≡◌, refl, ap, ◌∙◌, sym,
}
use gopherus.History.{Store, Request, Allocs, history_push, is_some}
use gopherus.Menu.Keys.{maxhostlen, maxsellen}
use gopherus.Url.Parse.{parsegopherurl, parseurl_error}

pub record Args : Type 0 where
  pub notui : Bool
  pub saveas : Option Bytes
  pub history : Store

pub data Refusal : Type 0 where
  no_filename usage invalid_list invalid_url out_of_memory : Refusal

-- What the loop over the arguments ends with: what was read, or a message and an exit code of 1, at once
-- and with the history as it is then.
pub data Parsed : Type 0 where
  parsed : Args → Parsed
  failed : Refusal → Store → Parsed

abbrev pub byte_at : Bytes → ℕ → ℕ
byte_at s i = get_or s i 0

-- A URL, of which there may be one.
url : Allocs → Bytes → Args → Parsed
url a arg args =
    let p = parsegopherurl arg maxhostlen maxsellen in
    let request : Request = record {
      protocol = p.protocol;
      host = p.host;
      port = p.port;
      itemtype = p.itemtype;
      selector = p.selector;
    } in
    let r = history_push a request args.history in
    elim args.history.nodes [
      | n ∷ rest ↦ Parsed.failed Refusal.invalid_list args.history
      | [] ↦
          if p.protocol == parseurl_error
          then Parsed.failed Refusal.invalid_url args.history
          else if is_zero r.1
          then Parsed.parsed (record args { history = r.0 })
          else Parsed.failed Refusal.out_of_memory r.0
    ]

-- An argument that is no `-o` with a file name behind it.
single : Allocs → Bytes → Args → Parsed
unfolding url
single a arg args =
    if byte_at arg 0 == b'-'
      && byte_at arg 1 == b'o'
      && byte_at arg 2 == b'='
      && not (is_some args.saveas)
    then Parsed.parsed (record args { saveas = some (drop 3 arg) })
    else if byte_at arg 0 == b'-'
    then Parsed.failed Refusal.usage args.history
    else url a arg args

then_parse : (Args → Parsed) → Parsed → Parsed
then_parse f (Parsed.parsed args) = f args
then_parse f (Parsed.failed r s) = Parsed.failed r s

starts_output : Bytes → Args → Bool
starts_output arg args = strcmp_eq arg (codes "-o") && not (is_some args.saveas)

-- The loop over the arguments.
unfoldable pub parse_args : Allocs → List Bytes → Args → Parsed
unfolding single then_parse starts_output
parse_args a [] args = Parsed.parsed args
parse_args a (arg ∷ []) args =
    if starts_output arg args
    then Parsed.failed Refusal.no_filename args.history
    else single a arg args
parse_args a (arg ∷ next ∷ rest) args =
    let output = parse_args a rest (record args { notui = true; saveas = some next }) in
    let others = then_parse (parse_args a (next ∷ rest)) (single a arg args) in
    if starts_output arg args
    then if byte_at next 0 == b'-' then Parsed.failed Refusal.no_filename args.history else output
    else others

-- `-o` with a file name, as it changes what was read before.
output : Bytes → Args → Args
output file args = record args { notui = true; saveas = some file }

-- A URL changes nothing but the history, and whether it is right does not depend on the rest.
url-then :
    (a : Allocs) (arg file : Bytes) (args : Args) (f g : Args → Parsed)
    → ((s : Store)
        → f (record args { history = s }) ≡ g (output file (record args { history = s })))
    → then_parse f (url a arg args) ≡ then_parse g (url a arg (output file args))
unfolding url then_parse output
url-then a arg file args f g h = elim (List-cases args.history.nodes) [
  | inr (n, rest, e) ↦ rw (e, url) refl
  | inl e ↦
      let p = parsegopherurl arg maxhostlen maxsellen in
      let request : Request = record {
        protocol = p.protocol;
        host = p.host;
        port = p.port;
        itemtype = p.itemtype;
        selector = p.selector;
      } in
      let r = history_push a request args.history in
      rw (e, url)
        (elim (Bool-cases (p.protocol == parseurl_error)) [
          | inl bad ↦ rw bad refl
          | inr good ↦ rw good (elim (Bool-cases (is_zero r.1)) [
            | inl pushed ↦ rw pushed (h r.0)
            | inr full ↦ rw full refl
          ])
        ])
]

then_parse_id : (r : Parsed) → then_parse Parsed.parsed r ≡ r
unfolding then_parse
then_parse_id (Parsed.parsed args) = refl
then_parse_id (Parsed.failed r s) = refl

not_output : (arg : Bytes) → (byte_at arg 0 == b'-') ≡ false → strcmp_eq arg (codes "-o") ≡ false
not_output [] h = refl
not_output (c ∷ cs) h = rw h refl

single-url :
    (a : Allocs) (arg : Bytes) (args : Args)
    → (byte_at arg 0 == b'-') ≡ false
    → single a arg args ≡ url a arg args
unfolding single
single-url a arg args h = rw h refl

-- `gopherus URL -o FILE` and `gopherus -o FILE URL` are the same, for a URL and a file name that do not
-- start with `-`, also where the URL is wrong.
pub parse_args-output :
    (a : Allocs) (arg file : Bytes) (args : Args)
    → (byte_at arg 0 == b'-') ≡ false
    → (byte_at file 0 == b'-') ≡ false
    → args.saveas ≡ none
    → parse_args a (arg ∷ codes "-o" ∷ file ∷ []) args
      ≡ parse_args a (codes "-o" ∷ file ∷ arg ∷ []) args
unfolding parse_args starts_output output
parse_args-output a arg file args h k e =
    let args' = output file args in
    let only : (r : Args) → starts_output arg r ≡ false = λ r. rw (not_output arg h) refl in
    let first : parse_args a (codes "-o" ∷ file ∷ arg ∷ []) args ≡ single a arg args' =
      rw (e, k, parse_args) (rw (only (output file (record args { saveas = none }))) refl) in
    let second : parse_args a (arg ∷ codes "-o" ∷ file ∷ []) args
        ≡ then_parse (parse_args a (codes "-o" ∷ file ∷ [])) (single a arg args) =
      rw (only args) refl in
    let third =
      url-then a arg file args (parse_args a (codes "-o" ∷ file ∷ [])) Parsed.parsed
        (λ s. rw (e, k, parse_args) refl) in
    second
    ∙ ap (then_parse (parse_args a (codes "-o" ∷ file ∷ []))) (single-url a arg args h)
    ∙ third
    ∙ then_parse_id (url a arg args')
    ∙ sym (single-url a arg args' h)
    ∙ sym first

-- ===== src/Main/Arguments/Valid.antt =====
-- The history that the arguments of the command line give is a valid one, also where they are wrong.
use gopherus.Base.{
  ℕ, Bool, true, false, List, [], ◌∷◌, if◌then◌else◌, Bytes, some, List-cases, inl, inr, is_zero,
  ◌==◌, ◌&&◌, not,
}
use gopherus.History.{Allocs, Request, history_push, is_some}
use gopherus.History.Ledger.{IsValid, history_push-IsValid}
use gopherus.Main.Arguments.{
  Args, Parsed, byte_at, parse_args, url, single, then_parse, starts_output,
}
use gopherus.Menu.Keys.{maxhostlen, maxsellen}
use gopherus.Url.Parse.{parsegopherurl, parseurl_error}

-- The history that the arguments leave is valid.
abbrev pub ValidArgs : ℕ → Parsed → Type 0
ValidArgs base (Parsed.parsed args) = IsValid base args.history
ValidArgs base (Parsed.failed r s) = IsValid base s

module _ (base : ℕ) where
  ValidArgs-if :
      (b : Bool) (x y : Parsed)
      → ValidArgs base x
      → ValidArgs base y
      → ValidArgs base (if b then x else y)
  ValidArgs-if true x y h k = h
  ValidArgs-if false x y h k = k

  url-ValidArgs :
      (a : Allocs) (arg : Bytes) (args : Args)
      → IsValid base args.history
      → ValidArgs base (url a arg args)
  unfolding url
  url-ValidArgs a arg args v = elim (List-cases args.history.nodes) [
    | inr (n, rest, e) ↦ rw (e, url) v
    | inl e ↦
        let p = parsegopherurl arg maxhostlen maxsellen in
        let request : Request = record {
          protocol = p.protocol;
          host = p.host;
          port = p.port;
          itemtype = p.itemtype;
          selector = p.selector;
        } in
        let w = history_push-IsValid base a request args.history v in
        rw (e, url)
          (ValidArgs-if (p.protocol == parseurl_error) _ _ v
            (ValidArgs-if (is_zero (history_push a request args.history).1) _ _ w w))
  ]

  single-ValidArgs :
      (a : Allocs) (arg : Bytes) (args : Args)
      → IsValid base args.history
      → ValidArgs base (single a arg args)
  unfolding single
  single-ValidArgs a arg args v =
      let legacy =
        byte_at arg 0 == b'-'
        && byte_at arg 1 == b'o'
        && byte_at arg 2 == b'='
        && not (is_some args.saveas) in
      ValidArgs-if legacy _ _ v
        (ValidArgs-if (byte_at arg 0 == b'-') _ _ v (url-ValidArgs a arg args v))

  then_parse-ValidArgs :
      (f : Args → Parsed) (r : Parsed)
      → ((args : Args) → IsValid base args.history → ValidArgs base (f args))
      → ValidArgs base r
      → ValidArgs base (then_parse f r)
  unfolding then_parse
  then_parse-ValidArgs f (Parsed.parsed args) h v = h args v
  then_parse-ValidArgs f (Parsed.failed r s) h v = v

  pub parse_args-ValidArgs :
      (a : Allocs) (argv : List Bytes) (args : Args)
      → IsValid base args.history
      → ValidArgs base (parse_args a argv args)
  unfolding parse_args
  parse_args-ValidArgs a [] args v = v
  parse_args-ValidArgs a (arg ∷ []) args v =
      ValidArgs-if (starts_output arg args) _ _ v (single-ValidArgs a arg args v)
  parse_args-ValidArgs a (arg ∷ next ∷ rest) args v =
      ValidArgs-if (starts_output arg args) _ _
        (ValidArgs-if (byte_at next 0 == b'-') _ _ v
          (parse_args-ValidArgs a rest (record args { notui = true; saveas = some next }) v))
        (then_parse-ValidArgs _ _ (parse_args-ValidArgs a (next ∷ rest))
          (single-ValidArgs a arg args v))

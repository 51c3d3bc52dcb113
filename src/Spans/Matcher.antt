-- ===== src/Spans/Matcher.antt =====
-- spans.py, class SpanWrappingMatcher: a matcher that goes on to the documents with matching spans.
-- `get_spans`, the method _get_spans of a subclass, is a function of the child.
pub mod Spanned
pub mod Runs
use whooshy.Common.{
  ℕ, zero, suc, Bool, true, false, Option, none, some, List, [], ◌∷◌, if◌then◌else◌,
}
use whooshy.Common.Result.{Result, ok, err, stuck, ◌>>=◌}
use whooshy.Matching.Interface.{Matcher}
use whooshy.Spans.{Span}

-- `_spans` is none before the first document.
pub record SpanMatcher (C B : Type 0) : Type 0 where
  pub child : C
  pub spans : Option (List (Span B))

module _ {C W B : Type 0} (m : Matcher C W) (get_spans : C → List (Span B)) where
  -- The loop, where the child is active: none where it ends with the child.
  pub span_loop : ℕ → C → Result (C × Option (List (Span B)))
  span_loop zero c = err stuck
  span_loop (suc fuel) c = elim (get_spans c) [
    | s ∷ spans ↦ ok (c, some (s ∷ spans))
    | [] ↦ do
      c' ← m.next c
      let rest = span_loop fuel c'
      if m.is_active c' then rest else ok (c', none)
  ]

  abbrev pub kept_or : Option (List (Span B)) → Option (List (Span B)) → Option (List (Span B))
  kept_or none old = old
  kept_or (some spans) old = some spans

  -- _find_next: `_spans` stays as it is where the child ends.
  pub span_find_next : SpanMatcher C B → Result (SpanMatcher C B)
  unfolding span_loop
  span_find_next s =
      let found = (do
        (c, spans) ← span_loop (suc (m.size s.child)) s.child
        ok (record { child = c; spans = kept_or spans s.spans })) in
      if m.is_active s.child then found else ok s

  -- The constructor.
  pub span_init : C → Result (SpanMatcher C B)
  unfolding span_find_next
  span_init c =
      let s : SpanMatcher C B = (record { child = c; spans = none }) in
      let found = span_find_next s in if m.is_active c then found else ok s

  pub span_next : SpanMatcher C B → Result (SpanMatcher C B)
  unfolding span_find_next
  span_next s = do c ← m.next s.child; span_find_next (record s { child = c })

  pub span_skip_to : ℕ → SpanMatcher C B → Result (SpanMatcher C B)
  unfolding span_find_next
  span_skip_to t s = do c ← m.skip_to t s.child; span_find_next (record s { child = c })

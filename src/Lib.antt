-- ===== src/Lib.antt =====
-- A model of the core of whoosh, a full-text search library: the matchers, which walk over the
-- postings of a query, the sets of document numbers, the finite automata of fuzzy terms and
-- patterns, the spans of positions that positional queries match, the times that dates in queries
-- stand for, and the variable-length integers that the index files hold. The matchers are combined
-- into trees that follow the query; a filter matcher tests its documents against a document set.
--
-- Matching, of src/whoosh/matching: Matching/Interface.antt is the class Matcher of mcore.py as a
-- record of methods over a state, with the base class's loops, and the interface's promise: a valid
-- state stands for a sorted list of postings (its view), and is_active, id, score, next and skip_to
-- do on the matcher what they say on that list. The promise leaves out reset;
-- Matching/Union/Faults.antt is about that of UnionMatcher. Matching/Leaf.antt is ListMatcher of
-- mcore.py. Matching/Union.antt, Intersection.antt, AndNot.antt, AndMaybe.antt and DisMax.antt are
-- the classes of binary.py, over any two matchers; Matching/Filter.antt, Require.antt, Inverse.antt
-- and Multi.antt are FilterMatcher, RequireMatcher, InverseMatcher and MultiMatcher of wrappers.py,
-- over any children. Each defines the state, the methods under the class's names with a prefix,
-- and, where the class keeps the interface, the view; its children hold the proofs.
-- Matching/Postings.antt and its children are the abstract view: sorted lists of document numbers
-- with their scores, and their union, intersection, difference and filtering.
--
-- IdSets, of src/whoosh/idsets.py: IdSets/BitSet.antt is BitSet with BaseBitSet, over a list of
-- bytes, and IdSets/SortedSet.antt is SortedIntSet, over a list of numbers of 32 bits, as the
-- default typecode of its array has them; a larger one raises OverflowError. The functions
-- bisect_left and bisect_right of Python's bisect module are parameters, with the documented
-- partition of a sorted array as the hypothesis on bisect_left.
--
-- Automata, of src/whoosh/automata: Automata/Nfa.antt and Dfa.antt are the classes NFA and DFA of
-- fsa.py, Subset.antt is NFA.to_dfa, Valid.antt is DFA.next_valid_string with find_all_matches in
-- Valid/Matches.antt, Minimize.antt is DFA.minimize, Build.antt has the construction functions,
-- Product.antt, Renumber.antt and Strings.antt have product, renumber_dfa and strings_dfa;
-- Levenshtein.antt is lev.py and Glob.antt is glob.py. The states of an NFA are numbers (new ones
-- for object()), a set of them is a rising list, and where the code takes any element of a set, the
-- model takes the first one. A DFA has states of any type with an equality. Characters are their
-- code points. Automata/Trials.antt runs the constructions.
--
-- Spans, of src/whoosh/query/spans.py: Spans.antt is the class Span with bisect_spans, and
-- Spans/Select.antt the methods _get_spans of the span matchers, over lists of spans;
-- Spans/Matcher.antt is SpanWrappingMatcher, over any child of Matching and any _get_spans.
--
-- Util, of src/whoosh/util: Util/Varints.antt is varints.py. A file is the list of its bytes that
-- are still to be read. Util/Times.antt is times.py, with timespan.disambiguated in
-- Util/Times/Span.antt; datetime, timedelta and calendar.monthrange of Python are written out as
-- far as the code uses them. Util/Caches.antt is cache.py, with the cached function as a parameter,
-- and Util/Numeric.antt the ranges of numeric.py.
--
-- Distance.antt is levenshtein.py of src/whoosh/support.
--
-- Common holds the Boolean tests, lists and bits over the native numbers, and the exceptions as
-- results. A method that mutates its object returns the new object; a sub-matcher is owned by the
-- matcher that holds it, so there is no aliasing, except that a RequireMatcher shares its two
-- sub-matchers with its child and is modelled with one copy of them. `id` and `score` return the
-- object too, since a union caches its document number.
--
-- Loops run on fuel, and running out is the result `stuck`, which no theorem on a valid state
-- allows: a matcher has a size, which bounds the number of its postings, and the loops of the
-- matchers take one step more than the sizes of the sub-matchers; those of an inverse matcher one
-- more than the documents that are left below its limit; that of a MultiMatcher one more than its
-- sub-matchers; those of a BitSet one more than its bits; the encoder of variable-length integers
-- one more than the number; the loop that follows EPSILON one more than the states it begins with
-- and the destinations of all transitions; the subset construction two more than 2 to the number of
-- different destinations; the loop of split_ranges one more than the bits of a number. The search
-- of next_valid_string, find_all_matches, minimize, product and generate_all take their fuel as an
-- argument, since they may go on for ever or are not shown to end.
--
-- Scores are of any type, with any addition, maximum and boost: no law of floating-point numbers is
-- used. Document numbers are natural numbers without a bound.
--
-- Not modelled: replace, the block quality methods, values, spans and weights of the matchers, and
-- the truth values that next and skip_to return; skip_to and score of a MultiMatcher; matchers with
-- a scorer; the other document sets; the other span matchers' state and the span queries; u_to_utf8
-- of fsa.py, nfa.py and reg.py; reading, writing and storing an index, the query language, text
-- analysis and highlighting, which are text processing and input or output.
pub mod Common
pub mod Matching
pub mod IdSets
pub mod Util
pub mod Automata
pub mod Spans
pub mod Distance

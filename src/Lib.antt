-- ===== src/Lib.antt =====
-- A log-template parser in Go: it cuts log lines into tokens, clusters the lines, writes a template
-- with `<*>` for what varies in each cluster, matches lines against templates, and encodes a corpus
-- as template ids and arguments.
--
-- How the parts interact: `parse` keeps each distinct line once with its count, cuts it into
-- tokens, gives each token text an id, counts tokens and pairs of tokens, takes as anchors of a
-- line the tokens of its largest component with its special tokens, groups the lines by the key of
-- their anchors, and makes a cluster, its templates and its masks of each group. The tokenizer cuts
-- a line at the matches of special patterns and gives the rest to a splitter, scalar or over class
-- bytes. The rows of a cluster, as tokens with ids, go to `sharedSlices`, and the common ids decide
-- the template and the mask of each row. The matcher compiles the templates. The codec reads the
-- masks back into templates and arguments, and decodes.
--
-- Files:
--   Base and Base/: library names, tests, lists, byte texts, bits and arrays
--   Utf8: `utf8.DecodeRuneInString` and `unicode.IsSpace`; Go's tables of letters and digits are a
--     parameter (`Unicode`)
--   Strings, Strings/: what the program uses of Go's `strings` package
--   Token, Symbols, Split, Tokenizer: tokenizer.go (`newSymbolTable` is `new_symbol_table`,
--     `appendSplitTokenScalar` is `append_split_token_scalar`, `TokenizeInto` is `tokenize`)
--   Simd: tokenize_simd.go (`appendSplitTokenSIMD` is `append_split_token_simd`)
--   Filter: token_filter.go, and `commonCandidate` of template.go
--   Template: template.go (`sharedSlices`, `templatesForCluster`, `parameterMasks`)
--   Matcher: compiled templates of matcher.go (`matchInternal` is `match_internal`), `MatchAllIDs`
--   Codec: corpus_codec.go (`NewCorpusCodec` is `build_codec`)
--   Dict: Go maps with text keys
--   Dedup, Intern: the first loop of `parse` and `internRows` (parser.go)
--   Shards: `shardRanges` and the workers that write rows (parser.go)
--   TokenRecord: token_record.go (`newTokenRecord` is `new_token_record`)
--   Retokenize: `retokenizeTokensWithSymbolsInto` (parser.go)
--   Anchors: the map of anchors of graph.go and `canonicalAnchorKey` (parser.go)
--   Graph: graph.go (`anchorTokens` is `anchor_tokens`)
--   Groups: `groupByAnchorTokens` (parser.go) from the keys of the rows on
--   Clusters: the loop of `parse` over the groups, and `samplePositions` (parser.go)
--   Parse: `parse` (parser.go) with all of these, new buffers and one worker
--   Tests: runs on small inputs
-- A file's child modules hold the lemmas about its definitions.
--
-- State: a Go string is the list of its bytes. Positions into a text, `msg[i:]`, are the rest of the
-- text. The marks of `sharedSlices` are a list up to the slice's length and a list beyond it up to
-- the capacity, and its epochs are numbers below 2 ^ 32 with the wrap-around written out. A Go map is
-- an association list. The ids of `internRows`, the counts of lines and those of token records keep
-- their wrap-around at 2 ^ 32. Scratch buffers that are only reused for their memory are left out.
--
-- Fuel: the loops over a text have the text's length as fuel, and each round reads a byte or more.
-- The loop over the matches of a regular expression has one round more. The first pass over a graph
-- has as many rounds as the graph has nodes and edges, since each round follows an edge or closes a
-- node; the second has a round for each node, since a node is put on the stack once.
--
-- Parameters: `regexp` (a `find` function, documented to return a range of the text), the tables of
-- letters and digits, for the codec, the parser's masks and template table and the matcher's
-- `MatchID`, and for the parser the results of floating-point arithmetic: whether an edge passes
-- the threshold, and the rounded numbers of `samplePositions`. `GOMAXPROCS` is a number.
--
-- A pointer to a group is the group's number. The steps of workers are a relation, `Schedule`.
--
-- Not modelled: the setters of the parser with their checks of floating-point numbers, parses that
-- reuse buffers or want no templates or masks, and the memory model of goroutines (parser.go); the
-- matcher's indexes and its Aho-Corasick automaton (matcher.go, aho_corasick.go); the assembly
-- kernels, which tokenize_simd.go says must equal `classifyBytesGo`; and the command line
-- (cmd/tipping/main.go).
pub mod Base
pub mod Utf8
pub mod Token
pub mod Symbols
pub mod Split
pub mod Simd
pub mod Strings
pub mod Tokenizer
pub mod Filter
pub mod Template
pub mod Dict
pub mod Codec
pub mod Matcher
pub mod Dedup
pub mod Shards
pub mod Intern
pub mod TokenRecord
pub mod Retokenize
pub mod Groups
pub mod Clusters
pub mod Parse
pub mod Anchors
pub mod Graph
pub mod Tests

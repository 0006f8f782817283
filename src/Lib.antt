-- ===== src/Lib.antt =====
-- getassoc: an associative search engine. A corpus is a sparse matrix of documents and words; a query
-- is a list of weighted vectors, and the answer is the list of the documents most related to it.
--
-- The search, `assv` in assv.c, merges the vectors of the query with a priority queue ordered by the
-- document at each vector's head; it collects the cells of one document, passes them to the tests
-- (a limit on frequencies, a Boolean condition, two masks), scores the document and offers it to a
-- second priority queue, which keeps the best. When all is read, that queue is emptied into the result.
--
-- The files, and the code each models:
--
-- Common     lists, reads and writes of C arrays, `Run` (a result, a fault, or out of fuel), NA of util.h
-- Priq       priq.h, priq.c: the priority queue. The macros PROP_F, PROP_B become prop_f, prop_b; the
--            functions keep their names without `priq_`. priq_free is left out.
--            Priq/Order, Back, Forward: the heap and its repair; Priq/Laws: insertion;
--            Priq/Remove: removal and replacement.
-- Bx         bx.h, bx.c: the compiler (bx_compile, conv_a .. conv_f) and the evaluator (bx_exec, eval_a)
--            of Boolean expressions. Bx/Outcome: the proof rules for readers of tokens; Bx/Print: how an
--            expression is written; Bx/Sound, Bx/Complete: what is accepted; Bx/Meaning: what is computed.
-- Corpus     nwam.h.in: the structs that the parts share
-- Bxu        bxutil.c: Boolean conditions over words (bxu_conv, bxu_eval). Bxu/Slots: the entries of the
--            extended query; Bxu/Meaning: from the condition to the answer.
-- Assv       assv.c, assvP.h: the search. Assv/Merge: the main loop of `assv`; Assv/Masks: assv_mask_test
--            and assv_cutoff_test; Assv/TopK: updateq, and the loop that fills the result; Assv/Search:
--            `eject`, and `assv` from the merge on. Its parameters are the measure's functions, the tests
--            and their cookies, and a queue that holds the vectors of the query.
--            Assv/Merge/Step, Groups, Turns, Whole: the proof for the main loop, from one turn to all.
-- Simv       simv.c: the similarity of two vectors. Simv/Join: the words they have in common
-- Brsearch   brsearch.c: the binary search for a range of equal elements
-- Splitv     splitv.c: the fields of a string, and their number
-- Sutil      sutil.c: chop, string_trim and is_sound_handle_name
-- Csv        csv.c: csvgetline and its stream. Csv/Text: lines as text; Csv/Read, Strings, Line, Whole:
--            the loops, the strings in `buf`, a line, a call on a stream; Csv/Ends: that a call ends;
--            Csv/Records: a whole text.
-- Fss        fss.c: the full-text filter, `xfss`. Fss/Merge: the loops on two arrays; Fss/Order: acompar;
--            Fss/Combine: what they make of sets;
--            Fss/Query: what a query decides; Fss/Search: x_simple_query, for one pattern, with xstrncmp
--            and qsort as parameters; Fss/Seek: seek_idx, the section of a position.
-- Marshal    marshal.c: packets of objects, and unmar. Marshal/Append: what a packet keeps; Marshal/Calls,
--            Packed: a number of calls; Marshal/Linked, Restored: what unmar makes of the packet.
-- Vec        nwam.c: the vectors of an index. Vec/Merge, Uniq: merge_vec and uniq_vec; Vec/Update:
--            p3_eject_vec, which adds an update to the vector of a word, on a table that is a parameter;
--            Vec/Masked: wam_setmask and wam_get_vec.
-- Nht        nht.c: the hash table of names, its hash functions and ht_extend. Nht/Probe: which cells are
--            tried; Nht/Search: where a search ends; Nht/Cells, Write: a sound index, and one cell written;
--            Nht/Lookup, Erase: the table as a map; Nht/Extend: ht_extend, and entering into a full table;
--            Nht/Entries, Walk: nht_seq. `tbls` and `nelems` are the tables of pptbls.h.
-- Nio        nio.c: readn, recvn, writen, sendn. Nio/Input, Output: what is read and what is sent
-- Nstring    nstring.c: ns_append and writefn_ns_append. Nstring/Append: what is appended
-- Nit        nht.c: the table of items by number. Nit/Items: the table as a map; Nit/Next: its order
-- The files called Samples hold runs at fixed inputs.
--
-- State and errors. A C array is a list, and a read past its end is a `fault`; a struct is a record.
-- A queue holds its items by value: in `assv` it holds pointers to containers, each in the queue at
-- most once. A function that reads tokens takes and returns the tokens that are left. NULL and -1 are
-- `none` or `false`; whether `realloc` and `calloc` succeed is an argument, but in Csv, where they
-- do. Identifiers and frequencies are natural numbers, bounded where a struct's field has a width
-- that matters (`qidx`, `id`); the sums of indices in brsearch wrap at 2^64.
--
-- Fuel. The loops of PROP_F and PROP_B run on the length of the array or the index they start from,
-- each turn of which moves the index down or up the heap. bx_compile runs on the number of tokens.
-- The main loop of `assv` runs on one more than the number of cells, each turn notes one cell.
-- brsearch runs on the number of elements, each turn narrows the range; splitv and count_char run on
-- the length of the string. A search in nht.c runs on the number of tables plus twice the size of the
-- index, within which every cell is tried; csvgetline runs on the number of characters that are left;
-- the loops of nio.c on the number of bytes; those of fss.c on both arrays'
-- lengths and on the number of the frame; merge_vec on both lengths; simv on the number of words
-- of both vectors; ht_extend has a turn for each entry and one for each old cell. The theorems show that none of these runs
-- out, but say nothing of splitv where it collapses separators, and of simv on vectors not in order.
--
-- `double` is a parameter, the record Double: values that are not NaN, compared by a rank.
--
-- Not modelled: the files of the hash tables, how they are opened and closed, the weighting
-- functions of simdef.c (arguments of `eject`), the set-up of the query, the distributed search,
-- uniquify and debugging builds, and these parts of the program: the files of a corpus and how they are
-- built (the rest of nwam.c), the servers, the clients, clustering, the index builders and the string
-- comparison library.
pub mod Common
pub mod Assv
pub mod Brsearch
pub mod Bx
pub mod Bxu
pub mod Corpus
pub mod Csv
pub mod Fss
pub mod Marshal
pub mod Nht
pub mod Nio
pub mod Nit
pub mod Nstring
pub mod Priq
pub mod Simv
pub mod Splitv
pub mod Sutil
pub mod Vec

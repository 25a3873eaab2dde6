-- ===== src/Lib.antt =====
-- MootVote: anonymous polls on Solana. The development models the TypeScript of the frontend, of the
-- helpers and of the SDK; a JavaScript number or bigint that is not negative is a native number, a
-- buffer is a list of its bytes, and an exception is a value.
--
-- - Base: shared names, Boolean tests, lists, and integers.
-- - Bytes (helpers/utils.ts): toBytesBE32Buf, bytes32ToBig, toHex32, hexToBytes32. Bytes/Value and
--   Bytes/Hex are about the numbers that bytes and digits spell.
-- - Merkle (helpers/merkletree.ts, circom/MerkleTreeInclusionProof.circom): getMerkleRoot and
--   getMerkleProof over an abstract hash of two values. The loops write into one array, which halve_loop
--   does too; Merkle/InPlace compares this with pairing, Merkle/Tree with a recursive tree, and
--   Merkle/Inclusion relates proofs to roots.
-- - Census (frontend/src/pages/PollCreatePage.tsx, frontend/src/components/Vote.tsx,
--   scripts/genExample.ts): the file that the creator uploads, the census root, and the voter's search
--   and path. It uses Bytes and Merkle.
-- - VoteData (ts-sdk/src/instructions.ts): serializeVoteData, with its layout and a reader.
-- - Tally (frontend/src/components/Tally.tsx): Tally/Defs is the data and the libraries, Tally/Batch the loop
--   over votes, Tally/Next the stages of onTallyNext, Tally/Handlers the three handlers on the component's state. The
--   sparse Merkle tree, Poseidon, the curve and the prover are parameters; Tally/Laws lists what is relied
--   on of the tree. Tally/Clicks is the page over many clicks, with the votes that indexer/src/server.rs
--   lists (Tally/Votes); Tally/Rounds and Tally/Counting follow it. STATE_DEPTH is 64, MAX_BATCH 6 and MAX_CHOICES 11, as in the source.
-- - Blob (frontend/src/blob.ts) and Keyring, Revo (frontend/src/keyring.tsx): accounts and revoting
--   keys under a passphrase. WebCrypto and JSON are parameters. Tagged (helpers/utils.ts) is that JSON:
--   jsonReplacer and jsonReviver under the walks of the language; Tagged/Stored puts it under Blob,
--   Tagged/Exports into files.
-- - Registration (frontend/src/pages/CensusCreatePage.tsx, CensusJoinPage.tsx): the form of a new
--   census and the claim of an invitation.
-- - PollPage/Loads and PollPage/TallierKey read what the indexer answers; PollCreate/Description is its
--   check of a description (indexer/src/description_manager.rs).
-- - Steps (frontend/src/components/StepperCard.tsx): the states of the steps that a page shows.
-- - Drawer (frontend/src/components/AccountDrawer.tsx): the panel of accounts, as sequences of presses
--   on Keyring; Drawer/Keys is its list of revoting keys.
-- - Pager (frontend/src/pages/PollListPage.tsx, frontend/src/components/ChooseCensusModal.tsx,
--   frontend/src/pages/CensusesListPage.tsx): three paginations by cursors, each with its own query.
--   Auth (frontend/src/auth.ts) is makeAuthSig.
-- - Members (frontend/src/pages/CensusDetailPage.tsx): the page of a census's members, with the listing of
--   census-service/src/server.rs.
-- - Compress (helpers/compressSolana.ts, helpers/exportSolana.ts): compressProof and serProof. Decimal
--   (frontend/src/utils.ts): formatLamportsAsSol. Key (helpers/key.ts): randomScalar and keys.
-- - Sdk (ts-sdk/src, ts-sdk-relayer/src): the builders of both programs' instructions. An instruction is
--   its method with arguments and accounts, as anchor gets them; the search for addresses is a parameter.
-- - Events (ts-sdk/src/events.ts): getEvents; Events/Traces is the log of nested calls.
-- - Vote (frontend/src/components/Vote.tsx): Vote/Seal computes the message, Vote/Submit hands it in,
--   Vote/Handler is onVoteClick. Vote/Readable lists what is relied on of the curve and the cipher, and
--   meets Tally; Vote/Revote follows an account's votes, Vote/Relayed compares with Sdk. The stages "proof" and
--   "done" are named prove and finished.
-- - PollCreate (frontend/src/pages/PollCreatePage.tsx, frontend/src/arweave.ts): the form's schema and
--   dates, the upload, and onSubmit. Dates and numbers of the language are parameters.
--   PollCreate/LocalInput is about the dates that the form opens with.
-- - PollList (frontend/src/pages/PollListPage.tsx): the filters and the query, on the pages of Pager.Polls;
--   PollList/Service is list_polls of indexer/src/server.rs.
-- - PollPage (frontend/src/pages/PollDetailPage.tsx, frontend/src/components/PollStatus.tsx): the clock,
--   the tabs and the results. PollPage/Double is the doubles in which the source computes a percentage.
--
-- Every loop is by structural recursion or on the number of rounds that its bounds give, so no fuel is
-- chosen; the search for a double's exponent has 106 rounds, enough for numbers up to 2^53. Not modelled: the programs and services in Rust, but for what the pages are compared with (the
-- listings, is_voter and the check of a description), the circuits but for
-- the inclusion proof, rendering, and the requests themselves, whose answers are arguments.
pub mod Base
pub mod Merkle
pub mod Bytes
pub mod Census
pub mod VoteData
pub mod Sdk
pub mod Tally
pub mod Blob
pub mod Tagged
pub mod Members
pub mod Auth
pub mod Vote
pub mod Events
pub mod PollCreate
pub mod PollPage
pub mod Steps
pub mod PollList
pub mod Registration
pub mod Key
pub mod Keyring
pub mod Drawer
pub mod Pager
pub mod Revo
pub mod Compress
pub mod Decimal

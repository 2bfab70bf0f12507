-- ===== src/Lib.antt =====
-- A model of the parts of gem16 that run on the host and decide what the GPU work may rely on, and
-- proofs that they keep their promises. gem16 serves one Gemma checkpoint from a 16 GB card: an HTTP
-- server keeps a bounded pool of chat sessions, a memory plan lays the checkpoint and its caches out in
-- one arena, a decode loop drafts tokens and adapts how many, and requests and answers are JSON text,
-- streamed as server-sent events.
--
-- Files and what they model (paths are from the repository's root):
--   Prelude, Status: shared names; Status is include/gem16/status.h. `Result` is the source's
--     Result<T>, `>>=` its `if (!x.ok()) return x.status();`, `refuse_if` its guarded returns.
--   Pool: src/server/session_pool.{h,cpp} (CreateSession as `reserve`, `publish` and
--     `cancel_reservation`, which are its critical sections, AcquireNamedSession, AcquireResponseSession,
--     ReleaseSession, DiscardSession, SessionLease, the response index) and HandleCancelResponse of
--     src/cli/server_main.cpp. Entries live in a store, since handlers share them; `held` is who keeps a
--     shared_ptr. Pool/Steps lets critical sections of different requests interleave in any order.
--     ReleaseSession takes no lock: its four atomic updates are `draw_tick`, `store_last_used`,
--     `drop_request` and `drop_gauge`, each a step of its own. An update that falls inside of another
--     request's critical section is taken to come before or behind it.
--     unordered_map is an association list without double keys: what the source picks does not depend
--     on the order but among sessions that were used at the same time. Whether a chat session can be
--     made (CUDA) is an argument of `create_session`.
--   Responses: PrepareResponsesRequest and CommitResponsesRequest of src/server/session_pool.cpp, with
--     the message and tool types of include/gem16/chat.h. `take_turn` is what a handler does with a
--     request: prepare, generate (the answer is an argument), commit.
--   Media: src/cuda/engine/media_chunk_plan.h, with the wrap of its uint64_t sums.
--   Memory: src/runtime/memory_plan.cpp; Memory/Checked has the checked arithmetic on 64 bits,
--     Memory/Plan the plan itself.
--   Mtp: AdaptiveMtpScheduler of src/cuda/mtp/scheduler.h. The thresholds on a mean of at most
--     16 groups are compared as fractions of integers.
--   Json: src/util/json.{h,cpp}; Json/Escape is Escape and Quote, Json/Utf8 the UTF-8 coder and checker,
--     Json/Strings the scanner of string literals, Json/Value the values and Stringify, Json/Parse the
--     parser of values and Parse. Bytes are numbers, an error is the byte position and the message
--     that Error formats. A std::map is a list of entries in the order of their keys. A double is
--     its 64-bit pattern; strtod and the stream formatter are arguments.
--   Safetensors: src/model/safetensors.{h,cpp}; LoadFile on the bytes of a file, whose header it parses
--     with Json/Parse, and Safetensors/Directory for LoadIndex and LoadSafetensorsDirectory, which hold
--     the shards against the index. What the file system answers is an argument. Messages keep their
--     fixed part.
--   ToolCalls: src/runtime/tool_call_parser.{h,cpp}. The module itself is Utf8CodePointCount, which checks a
--     string a second time and in another way than the JSON parser does; ToolCalls/Arguments is
--     ArgumentDslParser; ToolCalls/Stream is GemmaToolCallParser, where `step` is a round of the loop of
--     Consume and `push` a Push; ToolCalls/Schema is ValidateSchemaDefinition, with MatchesStrictSchema in
--     Schema/Match and ValidateToolDefinitions and ValidateGeneratedToolCalls in Schema/Calls. There `none`
--     is the exception of a std::get on a value of another type. Json/Double has the conversion and the
--     comparisons of doubles, on their bit patterns.
--   Nvfp4: src/cuda/nvfp4/sm120_layout.{h,cpp}, the tiled order of the FP4 weights in device memory and
--     the host's model of a lane's loads.
--   Sse: SseChunkBuilder of src/server/sse_chunk.h, which frames one event as one HTTP chunk in a
--     buffer of fixed size.
--
-- Bounds and fuel: machine integers are natural numbers with the wrap written out (`% 2 ^ 64`) where the
-- source can wrap. The loops of the string scanner and of the two UTF-8 checkers run on the length of
-- the text, since each round takes a byte; the parser of values has fuel for two calls at each byte and
-- two more: a value and the list that it stands in are two calls, and both together take a byte.
-- The parser of tool arguments has the same fuel as the parser of values, and Consume one round more than
-- bytes are pending, since a round that goes on takes a byte. The schema checks have fuel 33, which is the
-- source's limit of 32 levels. std::to_string has fuel for 20 digits, and the hexadecimal size of a
-- chunk for 16, the digits of a 64-bit number. All other loops are recursion on a list or count their rounds.
--
-- Not modelled: the CUDA kernels and engines, the tokenizer, the chat template, the HTTP routes and
-- the OpenAI request parser, the checkpoint's config and manifest, image and audio input, the platform
-- layer and the desktop application. A session's CUDA state, the clock, the secure ids and the file system
-- enter only as arguments.
pub mod Prelude
pub mod Status
pub mod Mtp
pub mod Json
pub mod Memory
pub mod Pool
pub mod Sse
pub mod Media
pub mod Responses
pub mod Nvfp4
pub mod Safetensors
pub mod ToolCalls

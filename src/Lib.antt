-- ===== src/Lib.antt =====
-- InterviewCraft, an interview trainer: a candidate speaks with a simulated interviewer, answers are
-- scored by a language model against a rubric, and the scores feed a graph of skills that plans the
-- next practice. The backend is in backend/app; this library models its core logic.
--
-- The parts, and the files that model them:
--   Prelude        helpers: Boolean tests, lists and dicts, Python's integers, joins of texts
--   Auth           api/v1/auth.py, services/auth, middleware/rate_limit.py, models/user.py: the users
--                  table as a list of rows (Users), tokens (Tokens), signing in and its lockout (Login,
--                  Lockout), the guards and the refresh of tokens (Sessions), Google accounts (Google),
--                  password resets (Passwords), the limit on requests (RateLimit)
--   Scoring        services/scoring: the rubric (Rubric), the model's answer as Python's dynamic values
--                  (Json), the call with its retries (Retry), the coercion of its fields (Coerce), the
--                  prompt's times and the quotes of the evidence (Quotes); api/v1/scoring.py: the
--                  segments of a session and the stories its scoring adds (Sessions)
--   Memory         services/memory/skill_graph.py, models/skill_graph_node.py: the table of skills
--                  (Skills) and the update of it by a scored answer (SkillGraph);
--                  services/memory/drill_planner.py: the weekly plan (DrillPlanner);
--                  services/memory/builder.py: the memory document of a candidate (Documents), what a
--                  session adds to it (Builder) and the batch jobs that consolidate it (Consolidation);
--                  services/memory/loader.py: the block of the prompt it becomes, cached (Loader)
--   Voice          services/voice: the pause detector (SmartPause), the providers of a session and
--                  whose keys they use (Providers), the fallback of speech synthesis (Fallback);
--                  services/voice/pipeline.py: the turns of a session (Turns), the debounce of an
--                  answer (Debounce), the sentences that are spoken (Sentences)
--   Delivery       services/delivery/analyzer.py: fillers, pauses and the score of how a candidate spoke
--   Interviews     api/v1/sessions.py, models/interview_session.py: the table of sessions and what the
--                  requests and the voice loops do to it (Rows, Lifecycle, Endings, Requests);
--                  api/v1/scoring.py, models/segment_score.py: the scoring of a session (Scores,
--                  SessionScoring, Rescoring, Rewritten), its delivery (DeliveryResults) and the replay of an ideal answer (Ideal); api/v1/rewind.py:
--                  an answer given again (Rewinds); its prices are in Voice (Costs, services/voice/costs.py)
--   Accounts       api/v1/settings.py, services/byok.py: preferences and the user's own keys (Keys,
--                  Gate), the deletion of an account (Deletion)
--   Progress       api/v1/share.py and the readiness of api/v1/dashboard.py (Cards, Readiness)
--   Negotiation    api/v1/negotiation.py: the analysis of a negotiation and the pattern of the last ones
--                  (Analyses)
--
-- They meet as in the program: the rubric's rules are the keys of the skill graph's map of rules,
-- whose skills are looked up in the table's categories; the planner ranks that table's rows; the
-- providers of a session are what the fallback switches between; a reset password is tried by the
-- login; the pause detector is part of the pipeline's state, which activates it, and the debounce asks
-- it whether the candidate speaks; the builder reads the skill graph's rows and deletes the entry that
-- the loader caches, and both handle the batch jobs; the delivery analysis reads the transcript that
-- the pipeline saves; the builder merges into the stories that the scoring adds to. A voice session is
-- admitted by the tokens of Auth for a row of Interviews, whose end the pipeline writes; the scoring
-- of a session cuts it into segments, updates the skill graph and adds the stories; a rewind updates
-- the same graph; the keys of Accounts are what a session's creation asks for and what its providers
-- read; the readiness counts sessions.
--
-- State is passed explicitly: an operation takes the table or the object's fields and returns them
-- changed. Names follow the source; a helper of the model that is a part of a function is named for
-- what it does. An HTTP answer is `ok` or `raised` with its status and detail; the exceptions of the
-- scorer are values of `Error`, since which of them is caught decides what it does. Moments are
-- parameters, in seconds in Auth, Interviews and Progress and milliseconds in Voice and Scoring. Costs
-- are in millionths of a dollar.
--
-- Bounds: Python's integers are unbounded and are modelled so (ℤ where a value can be negative, ℕ
-- elsewhere, with truncation written out). The scorer's and the builder's retries are recursion on the
-- attempts left, three at the start as in the source. The sentence buffer's loop has the length of its
-- text as fuel, which is enough since each pass takes a character off. The passes of the debounce and
-- the events of a session are lists; every other loop is structural.
--
-- What the program only calls is a parameter: PyJWT, bcrypt and UUIDs (Auth.Tokens.Libraries, with their
-- documented behaviour in IsDocumented), Redis (Auth.RateLimit.Redis, IsRedis), Anthropic's client
-- (Scoring.Retry.Api), Python's floats (Memory.DrillPlanner.Floats, IsOrdered), `json.loads`, Fernet,
-- the speech services, the pipeline's language model (Voice.Turns.Llm) and its operations on texts, the
-- builder's extractions and batches, and the text forms of numbers and dates (Prelude.Text.Runtime).
-- `re`'s substitutions of the markdown patterns are one as well. The tests instantiate those that a theorem relies on.
--
-- Not modelled: the queries of the read-only endpoints, which are SQL; the clients of external
-- services; prompts and playbooks, which are texts; logging; the e-mail; the seeds, the migrations and
-- the frontend. Of the scorer, the assembly of the result and the usage log are left out; of the voice
-- pipeline, the duration guard and the table of words; of the memory, the search
-- of stories. A turn of the pipeline is one step: its tasks interleave in the order of the events, and
-- a cancelled turn is a step of its own; a request is one step on the table of sessions, and so is the
-- end of a voice loop. The texts of the negotiation's patterns are constructors. JSON numbers are
-- integers, as the scorer's schema asks for; a stored memory document and the results of a session
-- have the keys that the program writes.
pub mod Prelude
pub mod Memory
pub mod Voice
pub mod Delivery
pub mod Interviews
pub mod Accounts
pub mod Progress
pub mod Negotiation
pub mod Auth
pub mod Scoring

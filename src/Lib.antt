-- ===== src/Lib.antt =====
-- ArxSentinel reads HTTP access logs line by line, scores the address of each line and reports
-- and bans the worst. This library models the part that decides: what the program keeps of an
-- address, what each detector finds, how the score arises, which lines are let through before,
-- and how a ban reaches a router, Cloudflare or nginx and leaves it again; and around that the
-- configuration that is accepted, the blocklists and the line that Fail2Ban reads.
--
-- The parts, in the order in which a line meets them:
--   * cmd/arxsentinel/processor_security.go (Pipeline): Process of one line. It writes a warning
--     for a broken proxy chain, leaves at the custom whitelist, asks the WAF and the bot
--     verifier, updates the tracker, adds the penalty of a fake bot and calls the scorer.
--     Pipeline.process is that function over the state that a line can change: the tracker, the
--     cache of DNS answers and the warnings. Pipeline/Recorded and Pipeline/Kept prove of it.
--   * internal/core/chaincheck (Chaincheck): the bogon ranges and Check; Chaincheck/Ranges has
--     Cloudflare's ranges, their refresh and the update; proofs in Chaincheck/Bogons and
--     Chaincheck/Refreshed. pkg/processorplugins/chaincheck is Chaincheck/Entries, with
--     Chaincheck/Issued.
--   * internal/core/whitelist (Whitelist): the matcher, the cache of DNS answers, the verifier;
--     Whitelist/Matching, Whitelist/Verified and Whitelist/Suffixes.
--     pkg/processorplugins/whitelist is Whitelist/Entries.
--   * pkg/processorplugins/waf (Waf): Process and classifyAction; Waf/Actions. The score function
--     that cmd/arxsentinel/processor_factory.go binds is Pipeline.score_signal.
--   * internal/core/state/tracker.go (State): the state of an address, the map with its list for
--     eviction, the collection of old addresses. Proofs: State/Tracked (map and list agree),
--     State/Lru, State/Updated, State/Gc, State/Paths (ring buffer), State/Rate and State/ApproxRate.
--   * internal/core/scorer/scorer.go (Scorer): Evaluate, the decay, the levels; Scorer/Decay,
--     Scorer/Hits, Scorer/Verdicts.
--   * pkg/detectorplugins (Detectors): a file for each of the eight detectors; the lemmas on the
--     crawler's search are in Detectors/Sequence and Detectors/Crawling.
--   * pkg/executorplugins/mikrotik (Mikrotik): the passes of Run, flush, sweep and the initial
--     sync; Mikrotik/Flushed, Mikrotik/Swept and Mikrotik/Counted.
--   * pkg/executorplugins/cloudflare (Cloudflare): the ban list, the wait for a pending operation
--     and the retries; Cloudflare/Runs has the flush, the sweep and the loop of Run,
--     Cloudflare/Settings the configuration and the instance id. Proofs: Cloudflare/Attempts,
--     Cloudflare/Flushed, Cloudflare/Swept, Cloudflare/Held and
--     Cloudflare/Lost.
--   * pkg/executorplugins/nginx (Nginx): the lines of the list file and their reading; Nginx/Runs
--     has the files, the flush, the sweep and the loop of Run; Nginx/Reread.
--     Bans holds what the executors share, the event and the order of the levels.
--   * internal/sys/config/config.go (Config): the sections that are validated, with
--     Config/Inputs, Config/Sinks, Config/Transport and Config/Checks after the functions of
--     validateConfig; Config/Keyed, Config/Outputs, Config/Wired and Config/Sane prove of them.
--   * internal/core/blocklist (Blocklist): the normalisation of a pattern, the parsers of parser.go
--     in Blocklist/Parsers and manager.go in Blocklist/Lists: the refresh, the store and the
--     lookups. Proofs: Blocklist/Wildcards, Blocklist/Lines, Blocklist/Merged and
--     Blocklist/Stored.
--   * internal/threat/format and internal/core/output/warnings.go (Formats): the line of an event
--     and of a chain warning; Formats/Quoted and Formats/Lines.
-- Event is the log entry, Net is Go's package net as far as it is used, Common holds the shared
-- lists, texts, maps and numbers, Tests the runs at concrete inputs.
--
-- How the code is read:
--   * A text is the list of its bytes. A time is a number of nanoseconds since Go's zero time, so
--     that 0 is the one for which IsZero holds. A duration that the configuration sets is an
--     integer where it may be negative. Differences of times and sums of durations are exact:
--     the saturation of time.Sub, and the overflow of twice the rate window, which need centuries,
--     are left out.
--   * strings.TrimSpace and strings.Fields cut at the ASCII spaces. Go's also cut at the spaces of
--     Unicode outside ASCII; what holds such a space at the end of a line of a blocklist, of a list
--     of ranges or of nginx's list file, or between the fields of the latter, is read otherwise.
--   * Counters and scores are unbounded. A counter grows by one for a request or an event, so that
--     64 bits do not run out; scores are bounded only by the configuration.
--   * float64 is the parameter Common.Doubles; IsRounded states what the decay needs of it, and
--     `thousandths` is an instance in which the tests run.
--   * A map is an association list. Where Go's order of a map's elements matters to a result, the
--     theorems hold for the order of the list, whatever it is.
--   * A pointer to the state of an address is the entry of the tracker's map; a write through it
--     is a write to the map. Locks are left out, but for the two readings of IPCache.Get, between
--     which another goroutine may write.
--   * Each reading of the clock in Process has a name of its own in Pipeline.Moment. A flush, a
--     sweep and a sync of the router read the clock once in the model. Cloudflare and nginx take
--     the clock from the state of what is outside, as it is at the call.
--   * Code outside the repository is a parameter: the resolver, the rule engine and the
--     deduplication window of arx-core, the API of the router, the getters of a detector's
--     configuration, the lower case and the quoting of a text that is not ASCII, Go's reader of
--     IPv6 texts and of durations, JSON, Cloudflare's API (CfClient), the queue types of arx-core
--     (Queues), the automaton that matches patterns (Automata), bbolt (Bolt), the HTTP fetch
--     (Fetch), and for nginx the files, the reload command and the clock (Host),
--     and the HTTP client of the chain guard (Web).
--   * Three functions run on fuel: the printing of a decimal number, whose fuel, the number and
--     one, is more than its digits; the removal of wildcards, whose fuel, the length and one, is
--     more than its passes, since each but the last makes the text shorter; and the search for the
--     names of an nginx map, whose fuel, the length and one, is more than its finds, since each
--     takes a byte or more.
--
-- Not modelled: the building of the WAF's rule sets, the migration of old configurations, the
-- reading of the nginx executor's configuration and the executors for OpenWrt and OPNsense, for
-- now; logging, metrics, HTTP clients, flags, signals, the YAML and environment loaders and the
-- wiring of plugins, which are input and output.
mod Common
pub mod Event
pub mod State
pub mod Scorer
pub mod Detectors
pub mod Net
pub mod Whitelist
pub mod Chaincheck
pub mod Waf
pub mod Blocklist
pub mod Pipeline
pub mod Bans
pub mod Mikrotik
pub mod Cloudflare
pub mod Config
pub mod Formats
pub mod Nginx
mod Tests

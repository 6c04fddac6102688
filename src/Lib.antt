-- ===== src/Lib.antt =====
-- A model of webhttp, a Go package of HTTP building blocks, and what is proved of it.
--
-- The parts and their files. Text is a list of byte values; a handler is a function from a request
-- and a response to a response and how the call ended.
--
-- - asciifold.go: AsciiFold (equalASCIIFold, lowerASCII, lowerASCIIString), with the scan for the
--   first uppercase letter that saves an allocation. Laws in AsciiFold/Laws.
-- - fieldlist.go: FieldList (fieldList in its three syntaxes, tokenLen, the byte classes). The
--   iterator is the list of the elements it yields. Laws in FieldList/Laws.
-- - clientip.go: ClientIp (ResolveClient, parseForwarding, parseBounded, parseListEntry, client,
--   present, public, inTrusted, peerHost, ClientIP), ClientIp/Cidr (ParseCIDRs, parseTrustedPrefix,
--   with their theorem) and ClientIp/Forwarded (parseForwardedElement,
--   cutForwardedPair, cutForwardedValue, parseNode). Theorems in ClientIp/Walk, ClientIp/Resolve,
--   ClientIp/Spoof, ClientIp/Forwarded/Quoting and ClientIp/Forwarded/Fuel. It uses FieldList for
--   the fields and AsciiFold for parameter names.
-- - ratelimit.go: RateLimit (tokenBucket, allow, allowLocked, retryAfterSecondsLocked, RateLimiter,
--   its options and presets), over the interface in Float. Theorems in RateLimit/Window and
--   RateLimit/Serve, over RateLimit/Bucket; the burst at one moment in RateLimit/Burst. A denied request is answered through Json.
-- - json.go: Json (JSONHeaders, WriteJSON, WriteJSONStatus, Ok, WriteError, errorEnvelope,
--   checkedErrorCode, errorBodyJSON, warnOnce). Laws in Json/Envelope, which RateLimit and
--   Middleware use, and in Json/Warning.
-- - hostallowlist.go: Host (CanonicalHost, ParseHostList and its options, Allows, Size,
--   LoopbackRequest, the policy's Middleware). Theorems in Host/Canonical and Host/Policy.
-- - recorder.go: Recorder, each method of StatusRecorder as a step on its state. Theorems in
--   Recorder/First.
-- - middleware.go: Middleware (Chain, Recoverer, SecurityHeaders and its options, NoStore,
--   RouteTimeout), Middleware/Report (the options of Recoverer, its log lines and its hook) and Hsts
--   (HSTS, Validate, WithHSTS). Theorems in Middleware/Order, Middleware/Recovery and
--   Middleware/Sends, with the handlers of Gzip/Calls. Logging is in RequestLog/Serve.
-- - gzip.go: Gzip (the negotiation and the candidates), Gzip/Writer (gzipWriter as a state machine
--   over the wrapped response), Gzip/Calls (what a handler does to a ResponseWriter) and Gzip/Serve
--   (the options and the middleware). Theorems in Gzip/Body, over the invariant in Gzip/Settled that
--   Gzip/Writing keeps, in Gzip/Negotiated, over the invariant in Gzip/Vary, in Gzip/Panic, with
--   Recoverer around the middleware, over Gzip/Recorded, and in Gzip/Weight.
-- - reqlog.go: RequestLog, in its children. RequestLog/Id: ValidRequestID, NewRequestID.
--   RequestLog/Path: templatePath, boundLoggedPath, boundLoggedMethod; theorems in
--   RequestLog/Path/Template and RequestLog/Path/Runes. RequestLog/Labels: RouteMetricLabels, with its
--   theorem. RequestLog/Config: logConfig and the options, with theirs. RequestLog/Emit:
--   emitAccessLog and the guarded calls of the hooks; theorem in RequestLog/Emit/Lines.
--   RequestLog/Serve: RequestLogger; theorem in RequestLog/Serve/Ids. A hook is a function into an
--   option, none where it panics, or for a metric hook into whether it returns. What is logged and the
--   calls of the metric hooks are the list of a request's events. The handler comes with the calls it
--   makes on the recorder, which Recorder runs, and with the pattern that the mux sets.
-- - server.go: Server/Config (NewServer, its options), Server/Silent (silentConns: track and closeAll
--   as steps) and Server/Run (Run, graceExpiryError, AwaitDone, CausedByCancellation). Run is the list
--   of the calls it makes and its error, given what Serve and Shutdown return. Theorems in
--   Server/Silent/Fate, Server/Silent/Shutdown and Server/Run/Order.
-- - csp.go: Csp (InlineScriptHashes, InlineStyleHashes and the scanner below them). Theorems in
--   Csp/First and Csp/Spans, over Csp/Attrs.
-- - static.go: Static (the handler over the maps of the assets, serveGzip, ifNoneMatch, which uses
--   FieldList) and Static/Maps (buildStaticMaps over the entries of a walk, gzipAsset, StaticHandler
--   and its option). Theorems in Static/Match and Static/Serve, over Static/Build and Static/Answer.
-- - prelude.go: Methods (SetAllow, MethodNotAllowed, RequireMethod, baseResponseWriter, LimitBody),
--   with a theorem in Methods/Allow, and Decode (DecodeJSONInto, DecodeBody, DecodeBodyOptional).
-- - bindclass.go: Bind. loopbackonly.go: Loopback, on top of Host. readiness.go: Readiness.
--   requestpath.go: RequestPath. statictoken.go: StaticToken.
--
-- The standard library of Go. Header and Http hold what the code uses of net/http: header fields,
-- the server's ResponseWriter, handlers that may panic. Net holds addresses as numbers, prefixes
-- and net.SplitHostPort. What is not written out is a parameter: the address grammars and range
-- tests of net/netip (Net.AddrText) and of net (Host.HostText), json.Marshal (`encode`), the media
-- type parser and the canonical header key (arguments of Gzip and Gzip/Writer), compress/gzip
-- (Gzip.Writer.Compressor), http.FileServer, http.TimeoutHandler, path.Clean, SHA-256 with its text
-- in base64 or hexadecimal digits, the types of contents, what fs.WalkDir reports,
-- http.MaxBytesReader, the JSON decoder and the random source (arguments of the functions that use
-- them). A theorem that needs a property of a parameter has it as a hypothesis.
--
-- Numbers. Time is in nanoseconds. The pool of tokens is a float64 in the code; Float has float64 and
-- Duration.Seconds as a record of operations, and what rounding to the nearest value keeps of them as
-- a record of laws, on finite values. Numbers do not overflow. The first reading of the clock is told
-- from later ones by an option, in place of the zero time.
--
-- Responses. The body of a Response is what was handed to the server. The server refuses a write that
-- goes past the Content-Length that was declared, and a response that stays below it is cut short:
-- `Http.is_whole` says whether the client gets the body as it was written. Whether a writer is a
-- recorder, and what that has seen, is a field of the response, which Recoverer and RequestLogger set.
--
-- Loops are structural, but those over the pairs of a Forwarded element, over the positions of a page
-- where a tag may be, and over the elements of a page. These run on fuel: one more round than there
-- are bytes to read, and every round takes a byte at least.
--
-- Not modelled: the log lines of single warnings but that of a malformed error code, the stack of a
-- panic, and how many compressors the pool holds, none of which reaches a response; what a handler
-- does with a connection that it has taken over from the gzip writer; doc.go, which has no code. The
-- gzip writer is taken to see no error of a write on the writer that it wraps.
pub mod Prelude
pub mod AsciiFold
pub mod Header
pub mod FieldList
pub mod Net
pub mod Http
pub mod Json
pub mod RateLimit
pub mod Host
pub mod Recorder
pub mod Middleware
pub mod Float
pub mod Gzip
pub mod ClientIp
pub mod RequestLog
pub mod Server
pub mod Csp
pub mod Static
pub mod Hsts
pub mod Methods
pub mod Decode
pub mod Bind
pub mod Loopback
pub mod Readiness
pub mod RequestPath
pub mod StaticToken

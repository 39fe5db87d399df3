-- ===== src/Lib.antt =====
-- GuardMe's gateway (apps/gateway-backend/src, from where the paths below start that do not begin
-- with apps), a forward proxy that inspects the traffic of its users: the core of its decisions as
-- executable definitions, and what makes them correct.
--
-- Parts and files:
-- - Prelude, Text, Database: shared helpers. Text has the methods of JavaScript's String that the
--   source calls, on lists of UTF-16 code units; Prelude.Maps is JavaScript's Map; Database is the
--   interface of the Prisma client over a table, with an instance in memory.
-- - Rules: modules/rules. Rules.Matcher is utils/rule-matcher.util.ts, Rules.Service is
--   rules.service.ts, its operations over a table of rows.
-- - Threat: modules/threat. Threat.VirusTotal is providers/virustotal.provider.ts, Threat.Service is
--   threat.service.ts, which turns every failure into a result and a security event.
-- - Siem: modules/siem and config/siem.config.ts, the events. Siem.Service has the writing operations
--   of siem.service.ts and Siem.Queries the paginated ones, with utils/search-term.util.ts.
--   Siem.Analytics is utils/analytics-range.util.ts and utils/analytics-aggregation.util.ts, and
--   Siem.Analytics.Summary is siem-analytics.service.ts.
-- - Proxy: modules/proxy. Proxy.Url, Proxy.Dns and Proxy.ConnectTarget are the utils of these names;
--   Proxy.RateLimit, Proxy.BypassToken and Proxy.ThreatScanCache the services that keep state in
--   memory; Proxy.Inspection and Proxy.Policy the services that judge one request. Proxy.Pipeline is
--   proxy-pipeline.service.ts with its state, and Proxy.Pipeline.Handler its handlers, with
--   connect-tunnel.service.ts. Proxy.Headers is utils/hop-by-hop-headers.util.ts,
--   Proxy.HtmlEscape utils/html-escape.util.ts with utils/template-render.util.ts and the two page
--   services (Proxy.HtmlEscape.Pages), and Proxy.Forward proxy-forward.service.ts.
-- - Users: modules/users/users.service.ts and common/utils/password.util.ts. Users.Memory is the table
--   in memory.
-- - Auth: modules/auth. Auth.Service is auth.service.ts, Auth.Strategy is strategies/jwt.strategy.ts
--   (the guard of the dashboard), Auth.ReAuth is common/guards/re-auth.guard.ts.
-- - Notifications: modules/notifications and config/notification.config.ts.
-- - Websocket: modules/websocket. Websocket is ws-auth.service.ts, Websocket.Gateway is
--   events.gateway.ts, its rooms as the sockets that joined them.
-- - Health: modules/health/system-status.service.ts and its cache.
-- - Sessions: modules/sessions/sessions.service.ts; Sessions.ProxyAuth is
--   modules/proxy/proxy-auth.service.ts, which says who a proxy request is from, and
--   Sessions.ProxyAuth.Request what it reads of the request, with common/utils/request-context.util.ts.
-- - Vault: modules/vault, its rows and the key cache; Vault.Crypto is crypto.service.ts and
--   Vault.Service is vault.service.ts.
-- - Ueba: modules/ueba. Ueba.Anomaly is anomaly.service.ts, Ueba.Listener is ueba.listener.ts,
--   Ueba.Statistics is utils/baseline-stats.util.ts, Ueba.Baseline is the computation of
--   baseline.service.ts and Ueba.Baseline.Service its operations, and Ueba.Analytics is
--   ueba-analytics.service.ts.
-- - Dashboard: apps/dashboard-frontend/src/app. Dashboard.VaultStore is store/vault/vault.reducer.ts.
--
-- How the parts interact: a request is authenticated (Sessions.ProxyAuth), inspected
-- (Proxy.Inspection), may pass a warning with a token (Proxy.BypassToken), is held against the
-- user's rules (Rules.Service.evaluate_rules), and else scanned (Proxy.ThreatScanCache,
-- Threat.Service) and judged (Proxy.Policy). A request that is let through is sent to an address
-- that Proxy.Dns accepts. Every traffic log that is written is scored, and may give an alert
-- (Ueba.Listener). Every row that the siem writes, and every log-in and log-out, is heard by the
-- gateway, which sends it to the sockets of its user; events on threats are notified too
-- (Notifications). The same session opens the dashboard (Auth.Strategy), the proxy
-- (Sessions.ProxyAuth) and the websocket.
--
-- State is passed explicitly; an exception is the value `err` of Result. The clock, new identifiers
-- and random values are arguments. Third parties are parameters with their documented behaviour: the
-- Prisma client (Database.Prisma, Users.UserTable, and Siem.Analytics.Summary.Grouping for its
-- groupBy), the JWT library (Proxy.BypassToken.BypassJwt, Auth.SessionJwt), `decodeURIComponent`
-- (Websocket.UriDecoder), Node's cipher and argon2 (Vault.Crypto.NodeCrypto), the HTTP client of the
-- scans (Threat.VirusTotal.Api), the URL class (Proxy.Inspection.UrlApi, Proxy.Forward.TargetUrl),
-- `isIP`, the decoding of base64, the resolver and JavaScript's `Number` on a text.
--
-- Bounds and fuel: the polling loop of a scan has one round of fuel for each millisecond of its
-- timeout and one more, which is enough because every round sleeps for at least a millisecond. Numbers
-- of JavaScript are natural numbers here, and averages exact fractions, rounded where the source
-- rounds, with `Math.sqrt` a parameter; times and counts never become negative. Objects that count
-- are lists of their own entries; the names that every object has are told apart where a key can be
-- one of them (Ueba.Statistics.increment_count).
--
-- Not modelled: what writes to sockets and reads the files of templates, the validation of requests
-- by decorators, the wiring of the modules, and the web client but for the store of its vault.
pub mod Prelude
pub mod Text
pub mod Database
pub mod Rules
pub mod Proxy
pub mod Siem
pub mod Threat
pub mod Ueba
pub mod Users
pub mod Sessions
pub mod Vault
pub mod Auth
pub mod Notifications
pub mod Health
pub mod Websocket
pub mod Dashboard

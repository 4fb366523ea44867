-- ===== src/Mcp.antt =====
-- asyncgate/mcp/http.py and asyncgate/mcp/server.py: the calls of tools. Arguments have the kinds
-- that the tool's schema declares, or the call raises an error of type, where the source has one of
-- pydantic, of UUID or of the database driver. A result holds what the engine returns, not the
-- dictionary that the source makes of it.
pub mod Arguments
pub mod Server
pub mod Http
pub mod Access
